-- ===== src/Tests/SystemTests.antt =====
-- The modules fs, process, os and console on a small machine.
use node_qml.Prelude.{
  ℕ, ◌≡◌, ◌⊎◌, refl, true, false, none, some, List, [], ◌∷◌, pos, negsuc, eq_ℤ, codes, find,
  text_eq, last_value, map,
}
use node_qml.Memory.{QString}
use node_qml.System.{System, Running, undefined, boolean}
use node_qml.System.Calls.{IsCalled}
use node_qml.FileSystem.{method_mkdir_sync}
use node_qml.FileSystem.Outcomes.{has_no_path, IsRefused, IsMode, made, method_mkdir_sync-IsCalled}
use node_qml.Process.{Members, property_env_getter}
use node_qml.Process.Environment.{entry, property_env_getter-last_value}
use node_qml.Process.{linux}
use node_qml.System.{Reply}
use node_qml.Os.{
  address_object, method_uptime, NetworkInterface, HostAddress, ipv4_protocol, Kernel,
  method_network_interfaces,
}
use node_qml.Console.Names.{console_members}
use node_qml.Console
use node_qml.Console.{Objects, key_of}
use node_qml.Console.Marks
use node_qml.Console.Marks.{EndsTime, run-EndsTime, last_time, time_call}
use node_qml.Tests.Hosts.{Js, js, string}
use node_qml.Tests.UtilTests.{regex}

-- A world is its environment. No directory can be made, renamed or cut.
abbrev pub World : Type 0
World = List QString

abbrev pub system : System World
system = record {
  make_dir = λ p mode w. (negsuc 0, w);
  remove_dir = λ p w. (negsuc 0, w);
  truncate = λ p n w. (negsuc 0, w);
  errno = λ w. pos 2;
  exists = λ p w. false;
  rename = λ a b w. (false, codes "renamed" ∷ w);
  set_current = λ p w. (false, w);
  current_path = λ w. codes "/";
  exit = λ n w. [];
  system_environment = λ w. w;
  printable = λ s. s;
  message_of = λ n. codes "No such file";
}

abbrev pairs : List (QString × QString)
pairs = (codes "A", codes "1") ∷ (codes "B", codes "2") ∷ (codes "A", codes "3") ∷ []

abbrev running : Running World
running = record { world = map entry pairs; exception = none }

abbrev path_argument : List Js
path_argument = string (codes "/a") ∷ []

method_mkdir_sync-IsCalled_example :
    ((has_no_path js system path_argument ≡ true)
      × IsRefused js system running (method_mkdir_sync js system path_argument running))
    ⊎ ((has_no_path js system path_argument ≡ false)
        × (mode : ℕ) × IsMode js system path_argument mode
        × IsCalled system
            (codes "mkdir")
            (eq_ℤ (made js system path_argument mode running.world).0 (negsuc 0))
            undefined
            (made js system path_argument mode running.world).1
            running
            (method_mkdir_sync js system path_argument running))
method_mkdir_sync-IsCalled_example = method_mkdir_sync-IsCalled js system path_argument running

property_env_getter-last_value_example :
    (members : Members) × (property_env_getter system running ≡ some members)
    × ((name : QString) → find text_eq members name ≡ last_value text_eq pairs name)
property_env_getter-last_value_example =
    property_env_getter-last_value system pairs running refl
      ((refl, refl), ((refl, refl), ((refl, refl), tt)))

-- The entries PATH=a=b and, in another world, x.
abbrev one_entry : Running World
one_entry = record {
  world = entry (codes "PATH", entry (codes "a", codes "b")) ∷ [];
  exception = none;
}

abbrev no_sign : Running World
no_sign = record { world = codes "x" ∷ []; exception = none }

abbrev address : HostAddress
address = record {
  address_text = codes "127.0.0.1";
  protocol = ipv4_protocol;
  scope_id = [];
  is_loopback = true;
}

abbrev loopback : NetworkInterface
loopback = record {
  name = codes "lo";
  hardware_address = [];
  address_entries = record { ip = address; netmask = address } ∷ [];
}

abbrev kernel : Kernel World
kernel = record {
  uname = λ w. (pos 0, record { sysname = codes "Linux"; release = codes "3" }, w);
  sysinfo =
      λ w. (pos 0, record { uptime = pos 5; loads = (1, 2, 3); totalram = 8; freeram = 4 }, w);
  temp_path = λ w. codes "/tmp";
  local_host_name = λ w. codes "host";
  all_interfaces = λ w. loopback ∷ record loopback { address_entries = [] } ∷ [];
}

abbrev objects : Objects js
objects = record {
  as_object = λ v. none;
  label_of = λ o. codes "[object]";
  as_object_lem = λ v e. refl;
}

abbrev console : Console.State
console = record { time_marks = []; written = [] }

abbrev marked : List (Marks.Call js)
marked = time_call (pos 3) path_argument ∷ []

run-EndsTime_example :
    EndsTime js regex objects
      (pos 10)
      path_argument
      (Marks.run js regex objects marked console)
      (last_time js regex objects marked (key_of js objects path_argument))
run-EndsTime_example = run-EndsTime js regex objects marked console (pos 10) path_argument refl

-- The first interface has an address, the second one of the same name has none.
one_address :
    find text_eq (method_network_interfaces system kernel running) (codes "lo")
    ≡ some (address_object loopback (record { ip = address; netmask = address }) ∷ [])
unfolding method_network_interfaces text_eq
one_address = refl

uptime : (method_uptime system kernel linux running).0 ≡ Reply.number (pos 5)
unfolding method_uptime node_qml.System.check_call
uptime = refl

warned : find text_eq console_members (codes "warn") ≡ find text_eq console_members (codes "error")
unfolding console_members text_eq
warned = refl
