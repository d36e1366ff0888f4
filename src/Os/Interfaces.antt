-- ===== src/Os/Interfaces.antt =====
-- os.networkInterfaces of src/nodeqml/modules/os.cpp.
use node_qml.Prelude.{
  ◌≡◌, refl, ◌∙◌, List, [], ◌∷◌, map, text_eq, text_eq_iff, find, last_value, or_else, or_else-none,
  or_else-insert,
}
use node_qml.Memory.{QString}
use node_qml.System.{System, Running}
use node_qml.Os.{
  NetworkInterface, AddressEntry, Kernel, InterfaceMembers, address_object, insert_interface,
  insert_interfaces, method_network_interfaces,
}

-- The interfaces that have an address, with their names and the objects of their addresses.
abbrev pub with_addresses :
    NetworkInterface → List AddressEntry → InterfaceMembers → InterfaceMembers
with_addresses interface [] rest = rest
with_addresses interface (a ∷ addresses) rest =
    (interface.name, map (address_object interface) (a ∷ addresses)) ∷ rest

abbrev pub listed : List NetworkInterface → InterfaceMembers
listed [] = []
listed (i ∷ interfaces) = with_addresses i i.address_entries (listed interfaces)

insert_interface-last_value :
    (i : NetworkInterface) (addresses : List AddressEntry) (rest info : InterfaceMembers)
    (name : QString)
    → or_else (last_value text_eq rest name) (find text_eq (insert_interface i addresses info) name)
      ≡ or_else (last_value text_eq (with_addresses i addresses rest) name) (find text_eq info name)
unfolding insert_interface
insert_interface-last_value i [] rest info name = refl
insert_interface-last_value i (a ∷ addresses) rest info name =
    or_else-insert text_eq text_eq_iff (last_value text_eq rest name) info i.name
      (map (address_object i) (a ∷ addresses)) name

insert_interfaces-last_value :
    (interfaces : List NetworkInterface) (info : InterfaceMembers) (name : QString)
    → find text_eq (insert_interfaces interfaces info) name
      ≡ or_else (last_value text_eq (listed interfaces) name) (find text_eq info name)
unfolding insert_interfaces
insert_interfaces-last_value [] info name = refl
insert_interfaces-last_value (i ∷ interfaces) info name =
    insert_interfaces-last_value interfaces (insert_interface i i.address_entries info) name
    ∙ insert_interface-last_value i i.address_entries (listed interfaces) info name

module _ {W : Type 0} (system : System W) (kernel : Kernel W) where
  -- os.networkInterfaces has just the names of the interfaces that have an address, each with the
  -- addresses, in their order, of the last interface of that name.
  method_network_interfaces-last_value :
      (r : Running W) (name : QString)
      → find text_eq (method_network_interfaces system kernel r) name
        ≡ last_value text_eq (listed (kernel.all_interfaces r.world)) name
  unfolding method_network_interfaces
  method_network_interfaces-last_value r name =
      insert_interfaces-last_value (kernel.all_interfaces r.world) [] name
      ∙ or_else-none (last_value text_eq (listed (kernel.all_interfaces r.world)) name)
