-- ===== src/Os.antt =====
-- src/nodeqml/modules/os.cpp: the module `os`.
pub mod Interfaces
pub mod Names
use node_qml.Prelude.{
  ℕ, Bool, true, false, List, [], ◌∷◌, ◌++◌, map, if◌then◌else◌, ℤ, pos, ltb_ℤ, codes, text_eq,
  is_nil, insert,
}
use node_qml.Memory.{QString}
use node_qml.System.{System, Running, Reply, undefined, string, number, quotients, check_call}
use node_qml.Process.{Processor, Platform, linux, arch, platform}

-- struct utsname, and struct sysinfo
pub record Utsname : Type 0 where
  pub sysname : QString
  pub release : QString

pub record Sysinfo : Type 0 where
  pub uptime : ℤ
  pub loads : ℕ × ℕ × ℕ
  pub totalram : ℕ
  pub freeram : ℕ

-- QHostAddress::protocol
pub data Protocol : Type 0 where
  ipv4_protocol ipv6_protocol other_protocol : Protocol

-- QHostAddress, with its text
pub record HostAddress : Type 0 where
  pub address_text : QString
  pub protocol : Protocol
  pub scope_id : QString
  pub is_loopback : Bool

-- QNetworkAddressEntry
pub record AddressEntry : Type 0 where
  pub ip : HostAddress
  pub netmask : HostAddress

-- QNetworkInterface
pub record NetworkInterface : Type 0 where
  pub name : QString
  pub hardware_address : QString
  pub address_entries : List AddressEntry

-- What the module asks the machine for: uname and sysinfo, which give their result, what they fill
-- in and the world after them, QDir::tempPath, QHostInfo::localHostName and
-- QNetworkInterface::allInterfaces.
pub record Kernel (W : Type 0) : Type 0 where
  pub uname : W → ℤ × Utsname × W
  pub sysinfo : W → ℤ × Sysinfo × W
  pub temp_path : W → QString
  pub local_host_name : W → QString
  pub all_interfaces : W → List NetworkInterface

-- A member of the object of an address.
pub data Member : Type 0 where
  text : QString → Member
  flag : Bool → Member

abbrev pub family_of : Protocol → List (QString × Member)
family_of ipv4_protocol = (codes "family", text (codes "IPv4")) ∷ []
family_of ipv6_protocol = (codes "family", text (codes "IPv6")) ∷ []
family_of other_protocol = []

abbrev pub scope_of : QString → List (QString × Member)
scope_of id = if is_nil id then [] else (codes "scopeid", text id) ∷ []

-- The object of an address, its members in the order in which they are inserted.
unfoldable pub address_object : NetworkInterface → AddressEntry → List (QString × Member)
address_object interface address =
    (codes "address", text address.ip.address_text)
    ∷ (codes "netmask", text address.netmask.address_text)
    ∷ (family_of address.ip.protocol
        ++ ((codes "mac", text interface.hardware_address)
            ∷ (scope_of address.ip.scope_id
                ++ ((codes "internal", flag address.ip.is_loopback) ∷ []))))

-- The object of interfaces: an array of addresses for a name.
abbrev pub InterfaceMembers : Type 0
InterfaceMembers = List (QString × List (List (QString × Member)))

-- A turn of the loop, by the addresses of the interface.
abbrev pub insert_interface :
    NetworkInterface → List AddressEntry → InterfaceMembers → InterfaceMembers
unfolding address_object
insert_interface interface [] info = info
insert_interface interface (a ∷ addresses) info =
    insert text_eq info interface.name (map (address_object interface) (a ∷ addresses))

unfoldable pub insert_interfaces : List NetworkInterface → InterfaceMembers → InterfaceMembers
unfolding insert_interface
insert_interfaces [] info = info
insert_interfaces (i ∷ interfaces) info =
    insert_interfaces interfaces (insert_interface i i.address_entries info)

module _ {W : Type 0} (system : System W) (kernel : Kernel W) where
  -- OsModule::method_networkInterfaces
  unfoldable pub method_network_interfaces : Running W → InterfaceMembers
  unfolding insert_interfaces
  method_network_interfaces r = insert_interfaces (kernel.all_interfaces r.world) []

  -- OsModule::method_tmpdir and method_hostname
  unfoldable pub method_tmpdir : Running W → Reply × Running W
  method_tmpdir r = (string (kernel.temp_path r.world), r)

  unfoldable pub method_hostname : Running W → Reply × Running W
  method_hostname r = (string (kernel.local_host_name r.world), r)

  -- What a function does that asks uname, or sysinfo, and replies with a part of it.
  abbrev pub ask_uname : (Utsname → Reply) → Running W → Reply × Running W
  ask_uname reply r =
      let (result, info, w) = kernel.uname r.world in
      check_call system (codes "uname") (ltb_ℤ result (pos 0)) (reply info) w r

  abbrev pub ask_sysinfo : (Sysinfo → Reply) → Running W → Reply × Running W
  ask_sysinfo reply r =
      let (result, info, w) = kernel.sysinfo r.world in
      check_call system (codes "sysinfo") (ltb_ℤ result (pos 0)) (reply info) w r

  -- Only on Linux.
  abbrev pub on_linux : Platform → (Running W → Reply × Running W) → Running W → Reply × Running W
  on_linux host f r = elim host [ linux ↦ f r | _ ↦ (undefined, r) ]

  -- OsModule::method_type
  unfoldable pub method_type : Platform → Running W → Reply × Running W
  method_type host = on_linux host (ask_uname (λ info. string info.sysname))

  -- OsModule::method_release
  unfoldable pub method_release : Platform → Running W → Reply × Running W
  method_release host = on_linux host (ask_uname (λ info. string info.release))

  -- OsModule::method_uptime
  unfoldable pub method_uptime : Platform → Running W → Reply × Running W
  method_uptime host = on_linux host (ask_sysinfo (λ info. number info.uptime))

  -- The three load averages, as quotients.
  abbrev pub load_averages : Sysinfo → Reply
  load_averages info =
      quotients ((info.loads.0, 65536) ∷ (info.loads.1, 65536) ∷ (info.loads.2, 65536) ∷ [])

  -- OsModule::method_loadavg
  unfoldable pub method_loadavg : Platform → Running W → Reply × Running W
  method_loadavg host = on_linux host (ask_sysinfo load_averages)

  -- OsModule::method_totalmem
  unfoldable pub method_totalmem : Platform → Running W → Reply × Running W
  method_totalmem host = on_linux host (ask_sysinfo (λ info. number (pos info.totalram)))

  -- OsModule::method_freemem
  unfoldable pub method_freemem : Platform → Running W → Reply × Running W
  method_freemem host = on_linux host (ask_sysinfo (λ info. number (pos info.freeram)))

-- OsModule::method_platform and method_arch
unfoldable pub method_platform : Platform → Reply
unfolding platform
method_platform host = string (platform host)

unfoldable pub method_arch : Processor → Reply
unfolding arch
method_arch processor = string (arch processor)

-- OsModule::method_endianness
unfoldable pub method_endianness : Bool → Reply
method_endianness is_little = if is_little then string (codes "LE") else string (codes "BE")
