-- ===== src/FileDesc.antt =====
-- tgdcfs/core/model/file.py: the versions of a file and their copies. A time is a number of
-- microseconds; `ts` is its milliseconds. `none` stands for the empty version id, for the size -1
-- and for a missing store.
pub mod Versions
pub mod Order
pub mod Dating
mod Examples
use tgdcfs.Base.{
  ℕ, zero, suc, ◌+◌, ◌-◌, ◌/◌, Bool, true, false, not, ◌&&◌, ◌||◌, Option, none, some, List, [],
  ◌∷◌, ◌++◌, ltb, leb, if◌then◌else◌, length, sum, String, ◌==◌, nat_eq, string_eq,
}
use tgdcfs.Base.Result.{Result, ok, err, ◌>>=◌, require}
use tgdcfs.Base.Dict
use tgdcfs.Base.Dict.{Dict}

abbrev pub ts : ℕ → ℕ
ts when = when / 1000

-- `Replica` of reqres.py
pub record Replica : Type 0 where
  pub message_ids : List ℕ
  pub part_sizes : List ℕ

pub record FileVersion : Type 0 where
  pub id : String
  pub updated_at : ℕ
  pub size_field : Option ℕ
  pub message_ids : List ℕ
  pub part_sizes : List ℕ
  pub mirrors : Dict String (List ℕ)
  pub replicas : Dict String Replica
  pub store : Option String
  pub pending : Bool

abbrev pub is_empty : List ℕ → Bool
is_empty [] = true
is_empty (x ∷ xs) = false

abbrev pub all_positive : List ℕ → Bool
all_positive [] = true
all_positive (i ∷ is) = ltb 0 i && all_positive is

abbrev pub is_valid : FileVersion → Bool
is_valid v = not (is_empty v.message_ids)

-- The first replica whose part sizes are known.
unfoldable pub replica_size : Dict String Replica → Option ℕ
replica_size [] = none
replica_size ((key, r) ∷ rs) =
    let rest = replica_size rs in
    if not (is_empty r.part_sizes) && (length r.part_sizes == length r.message_ids)
    then some (sum r.part_sizes)
    else rest

-- The property `size`, which also remembers the sum; the version it leaves, and the size.
unfoldable pub size : FileVersion → Option ℕ × FileVersion
size v = elim v.size_field [
  | some n ↦ (some n, v)
  | none ↦
      if is_empty v.part_sizes
      then (replica_size v.replicas, v)
      else (some (sum v.part_sizes), record v { size_field = some (sum v.part_sizes) })
]

unfoldable pub materialize : String → List ℕ → List ℕ → FileVersion → FileVersion
materialize store message_ids part_sizes v = record v {
  message_ids = message_ids;
  part_sizes = part_sizes;
  store = some store;
  pending = false;
  size_field = none;
}

unfoldable pub set_invalid : FileVersion → FileVersion
set_invalid v = record v {
  message_ids = [];
  part_sizes = [];
  mirrors = [];
  replicas = [];
  size_field = none;
}

abbrev pub is_store : Option String → String → Bool
is_store none key = false
is_store (some store) key = store == key

-- A list of ids, aligned with the parts, that has a copy of every part.
abbrev pub is_aligned : List ℕ → List ℕ → Bool
is_aligned ids message_ids =
    not (is_empty ids) && ((length ids == length message_ids) && all_positive ids)

unfoldable pub has_copy_in : String → FileVersion → Bool
has_copy_in key v =
    if is_store v.store key && is_valid v
    then true
    else if elim (Dict.lookup key v.mirrors) [
      | none ↦ false
      | some ids ↦ is_aligned ids v.message_ids
    ]
    then true
    else elim (Dict.lookup key v.replicas) [ none ↦ false | some r ↦ not (is_empty r.message_ids) ]

unfoldable pub owned_by : String → FileVersion → Bool
owned_by key v = elim v.store [ none ↦ true | some store ↦ store == key ]

-- `d.setdefault(k, v)`
abbrev pub set_default {ℓ} : {V : Type ℓ} → String → V → Dict String V → Dict String V
set_default k v d = if Dict.has_key k d then d else Dict.insert k v d

-- The loop over the aligned mirrors: those that are complete become replicas.
unfoldable pub to_replicas :
    List ℕ → List ℕ → Dict String (List ℕ) → Dict String Replica → Dict String Replica
to_replicas old_ids part_sizes [] replicas = replicas
to_replicas old_ids part_sizes ((key, aligned) ∷ mirrors) replicas =
    to_replicas old_ids part_sizes mirrors (
      if (length aligned == length old_ids) && all_positive aligned
      then Dict.insert key (record { message_ids = aligned; part_sizes = part_sizes }) replicas
      else replicas)

abbrev pub found_ids : String → List ℕ → Dict String (List ℕ) → List ℕ
found_ids key otherwise mirrors = elim (Dict.lookup key mirrors) [
  | none ↦ otherwise
  | some ids ↦ ids
]

-- The replica of the new primary takes over; the old layout is kept as replicas.
unfoldable pub take_over : String → String → Replica → FileVersion → FileVersion
take_over old_key primary_key replica v =
    let old_ids = found_ids old_key v.message_ids v.mirrors in
    let others = Dict.erase old_key v.mirrors in
    record v {
      message_ids = replica.message_ids;
      part_sizes = replica.part_sizes;
      size_field = none;
      store = some primary_key;
      mirrors = [];
      replicas = to_replicas old_ids v.part_sizes others (
          Dict.insert old_key (record { message_ids = old_ids; part_sizes = v.part_sizes })
            (Dict.erase primary_key v.replicas));
    }

unfoldable pub promote_replica : String → String → FileVersion → FileVersion
promote_replica old_key primary_key v = elim (Dict.lookup primary_key v.replicas) [
  | none ↦ v
  | some replica ↦
      if is_empty replica.message_ids
      then record v { replicas = Dict.erase primary_key v.replicas }
      else take_over old_key primary_key replica v
]

-- With the old primary's ids as its mirror entry.
unfoldable pub promote : String → String → FileVersion → FileVersion
promote old_key primary_key v = elim (Dict.lookup primary_key v.mirrors) [
  | none ↦ promote_replica old_key primary_key v
  | some ids ↦
      if is_aligned ids v.message_ids
      then record v {
        mirrors = Dict.erase primary_key v.mirrors;
        message_ids = ids;
        store = some primary_key;
      }
      else promote_replica old_key primary_key v
]

unfoldable pub relocate : String → FileVersion → FileVersion
relocate primary_key v = elim v.store [
  | none ↦ v
  | some old_key ↦
      if old_key == primary_key
      then v
      else promote old_key primary_key
          (record v { mirrors = set_default old_key v.message_ids v.mirrors })
]
