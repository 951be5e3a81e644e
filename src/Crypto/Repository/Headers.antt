-- ===== src/Crypto/Repository/Headers.antt =====
-- tgdcfs/crypto/repository.py, `_HeaderCache`: first in, first out, within its capacity.
use tgdcfs.Base.{
  ℕ, ◌≤◌, ◌<◌, ◌≡◌, refl, ◌∙◌, ap, false, none, some, List, [], ◌∷◌, ◌++◌, leb, if◌then◌else◌,
  length, String, string_eq, arith, Bool-cases, inl, inr, length-append, drop, ==_refl,
}
use tgdcfs.Base.Dict
use tgdcfs.Base.Dict.{Dict}
use tgdcfs.Crypto.Repository.{Detected, HeaderCache, lookup_header, put_header}

abbrev pub keys : Dict String Detected → List String
keys [] = []
keys ((k, v) ∷ d) = k ∷ keys d

-- The order lists the keys of the store, each once, and they are not more than the capacity.
pub record IsFifo (c : HeaderCache) : Type 0 where
  pub aligned : keys c.store ≡ c.order
  pub nodup : Dict.NodupKeys c.store
  pub bounded : length c.store ≤ c.capacity
  pub roomy : 0 < c.capacity

keys-append : (c d : Dict String Detected) → keys (c ++ d) ≡ keys c ++ keys d
keys-append [] d = refl
keys-append ((k, v) ∷ c) d = ap (λ (ks : List String). k ∷ ks) (keys-append c d)

erase-first :
    (oldest j : String) (x : Detected) (d : Dict String Detected)
    → j ≡ oldest
    → Dict.has_key j d ≡ false
    → Dict.erase oldest ((j, x) ∷ d) ≡ d
unfolding Dict.erase
erase-first oldest j x d same gone = ground (arith, Dict.erase-absent j d gone, ==_refl j)

has_key-tail :
    (k j : String) (x : Detected) (d : Dict String Detected)
    → Dict.has_key k ((j, x) ∷ d) ≡ false
    → Dict.has_key k d ≡ false
unfolding Dict.has_key
has_key-tail k j x d fresh = ground arith

-- The new entry at the end of a store with room for it.
appended :
    (k : String) (v : Detected) (capacity : ℕ) (d : Dict String Detected) (order : List String)
    → keys d ≡ order
    → Dict.NodupKeys d
    → length d < capacity
    → Dict.has_key k d ≡ false
    → IsFifo (record { capacity = capacity; store = Dict.insert k v d; order = order ++ (k ∷ []) })
appended k v capacity d order same u room fresh =
    let at_end : Dict.insert k v d ≡ d ++ ((k, v) ∷ []) = Dict.insert-fresh k v d fresh in
    record {
      aligned =
          ap keys at_end
          ∙ keys-append d ((k, v) ∷ [])
          ∙ ap (λ (ks : List String). ks ++ (k ∷ [])) same;
      nodup = Dict.insert-NodupKeys k v d u;
      bounded = omega (arith, ap length at_end, length-append d ((k, v) ∷ []), room);
      roomy = omega (arith, room);
    }

lookup-put :
    (k : String) (v : Detected) (d : Dict String Detected)
    → Dict.lookup k (Dict.insert k v d) ≡ some v
lookup-put k v d = ground (arith, Dict.lookup-insert k k v d, ==_refl k)

put_full :
    (k : String) (v : Detected) (c : HeaderCache) (d : Dict String Detected) (order : List String)
    → keys d ≡ order
    → Dict.NodupKeys d
    → length d ≤ c.capacity
    → c.capacity ≤ length d
    → 0 < c.capacity
    → Dict.has_key k d ≡ false
    → (c' : HeaderCache) × ((elim order [
      | [] ↦ none
      | oldest ∷ rest ↦
          some
            (record c { store = Dict.insert k v (Dict.erase oldest d); order = rest ++ (k ∷ []) })
    ])
        ≡ some c')
      × IsFifo c'
      × (lookup_header k c' ≡ some v)
      × (c'.order ≡ drop 1 order ++ (k ∷ []))
unfolding lookup_header
put_full k v c [] order same u fits full some_room fresh = absurd (omega arith)
put_full k v c ((j, x) ∷ d) [] same u fits full some_room fresh = cc
put_full k v c ((j, x) ∷ d) (oldest ∷ rest) same (gone, u) fits full some_room fresh =
    let first : j ≡ oldest = ground (arith, same) in
    let others : keys d ≡ rest = ground (arith, same) in
    let erased : Dict.erase oldest ((j, x) ∷ d) ≡ d = erase-first oldest j x d first gone in
    let missing : Dict.has_key k d ≡ false = has_key-tail k j x d fresh in
    (
      record c {
        store = Dict.insert k v (Dict.erase oldest ((j, x) ∷ d));
        order = rest ++ (k ∷ []);
      },
      refl,
      rw erased (appended k v c.capacity d rest others u (omega (arith, fits, full)) missing),
      rw erased (lookup-put k v d),
      refl,
    )

-- Storing what was detected of a file never raises; afterwards the file is found with it, or with what
-- was stored before for the same file; the order of the cache still lists its files, each once, and
-- they are not more than the capacity. A file that was not stored comes last in the order, and the
-- first one of the order goes for it when the cache is full.
pub put_header-IsFifo :
    (k : String) (v : Detected) (c : HeaderCache)
    → IsFifo c
    → (c' : HeaderCache) × (put_header k v c ≡ some c')
      × IsFifo c'
      × (lookup_header k c' ≡ (if Dict.has_key k c.store then lookup_header k c else some v))
      × (c'.order ≡ (
          if Dict.has_key k c.store
          then c.order
          else (if leb c.capacity (length c.store) then drop 1 c.order else c.order) ++ (k ∷ [])))
unfolding put_header lookup_header
put_header-IsFifo k v c h = elim (Bool-cases (Dict.has_key k c.store)) [
  | inl there ↦ (c, rw there refl, h, rw there refl, rw there refl)
  | inr fresh ↦ elim (Bool-cases (leb c.capacity (length c.store))) [
    | inl full ↦
        rw (fresh, full)
          (put_full k v c c.store c.order h.aligned h.nodup h.bounded (ground arith) h.roomy fresh)
    | inr room ↦ (
      record c { store = Dict.insert k v c.store; order = c.order ++ (k ∷ []) },
      rw (fresh, room) refl,
      appended k v c.capacity c.store c.order h.aligned h.nodup (ground arith) fresh,
      rw fresh (lookup-put k v c.store),
      rw (fresh, room) refl,
    )
  ]
]
