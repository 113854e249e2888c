-- ===== src/Execution/Run/Contracts.antt =====
-- The storage of contracts and their registry (`write` in src/contracts/contract_storage.rs,
-- `register_contract` and `get_contract` in src/contracts/contract_registry.rs, and the last two
-- loops of `merge_overlay` in src/execution/parallel_executor.rs). The storage is one list of
-- entries for all contracts, under the keys that the contracts choose. Reads and writes of the
-- database succeed.
use cytah_speed.Prelude.{
  Bool, true, false, Option, none, some, [], ◌∷◌, ◌==◌, leb, ltb, if◌then◌else◌, Table, get, insert,
}
use cytah_speed.Core.Transaction.{Address, Bytes}
use cytah_speed.Execution.Access.{same_bytes}
use cytah_speed.Execution.Run.{ContractWrites, Overlay}

pub record Disk : Type 0 where
  pub entries : ContractWrites
  pub contracts : Table Bytes

unfoldable pub put_entry : Bytes → Bytes → ContractWrites → ContractWrites
put_entry key value [] = (key, value) ∷ []
put_entry key value (e ∷ es) =
    let rest = put_entry key value es in if same_bytes key e.0 then (key, value) ∷ es else e ∷ rest

-- `ContractStorage::write`
unfoldable pub write_entry : Bytes → Bytes → Disk → Disk
unfolding put_entry
write_entry key value d = record d { entries = put_entry key value d.entries }

-- `ContractRegistry::get_contract`
unfoldable pub get_contract : Address → Disk → Option Bytes
get_contract address d = get address d.contracts

-- `ContractRegistry::register_contract`: a contract that is known stays as it is.
unfoldable pub register_contract : Address → Bytes → Disk → Disk
unfolding get_contract
register_contract address bytecode d = elim (get_contract address d) [
  | some known ↦ d
  | none ↦ record d { contracts = insert address bytecode d.contracts }
]

-- The order of `Vec<u8>`.
unfoldable pub bytes_leb : Bytes → Bytes → Bool
bytes_leb [] ys = true
bytes_leb (x ∷ xs) [] = false
bytes_leb (x ∷ xs) (y ∷ ys) = let rest = bytes_leb xs ys in if x == y then rest else ltb x y

unfoldable pub insert_entry : Bytes × Bytes → ContractWrites → ContractWrites
unfolding bytes_leb
insert_entry e [] = e ∷ []
insert_entry e (d ∷ m) =
    let rest = insert_entry e m in if bytes_leb e.0 d.0 then e ∷ d ∷ m else d ∷ rest

unfoldable pub sort_entries : ContractWrites → ContractWrites
unfolding insert_entry
sort_entries [] = []
sort_entries (e ∷ m) = insert_entry e (sort_entries m)

unfoldable pub write_entries : ContractWrites → Disk → Disk
unfolding write_entry
write_entries [] d = d
write_entries (e ∷ es) d = write_entries es (write_entry e.0 e.1 d)

-- The registrations of an overlay in ascending order of the addresses.
unfoldable pub insert_registration : Address × Bytes → Table Bytes → Table Bytes
insert_registration e [] = e ∷ []
insert_registration e (d ∷ m) =
    let rest = insert_registration e m in if leb e.0 d.0 then e ∷ d ∷ m else d ∷ rest

unfoldable pub sort_registrations : Table Bytes → Table Bytes
unfolding insert_registration
sort_registrations [] = []
sort_registrations (e ∷ m) = insert_registration e (sort_registrations m)

unfoldable pub register_all : Table Bytes → Disk → Disk
unfolding register_contract
register_all [] d = d
register_all (e ∷ es) d = register_all es (register_contract e.0 e.1 d)

-- The second and third part of `merge_overlay`.
unfoldable pub merge_contracts : Overlay → Disk → Disk
unfolding write_entries register_all sort_entries sort_registrations
merge_contracts overlay d =
    register_all (sort_registrations overlay.registry_updates)
      (write_entries (sort_entries overlay.storage) d)
