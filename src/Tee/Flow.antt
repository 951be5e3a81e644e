-- ===== src/Tee/Flow.antt =====
-- tgdcfs/core/tee.py: what holds of a branch and its mirror.
use tgdcfs.Base.{
  All, ℕ, ◌-◌, ◌≤◌, ◌<◌, ◌≡◌, ◌⊎◌, refl, nat_eq, Bool, true, false, if◌then◌else◌, ◌++◌, length,
  ltb, leb, take,
}
use tgdcfs.Crypto.Bytes.{Bytes, joined}
use tgdcfs.Tee.{TeeBranch, Producer, idle, feeding, finishing, closing, Phase, Mirror}

-- The bytes that a branch was given: during the loop of `read`, the later branches lack the last ones.
abbrev pub level : Producer → ℕ → ℕ → ℕ
level (feeding bytes i) fed j = if leb i j then fed - length bytes else fed
level idle fed j = fed
level (finishing i) fed j = fed
level (closing i) fed j = fed

-- Nothing comes any more.
abbrev pub is_closed : ℕ → Producer → ℕ → Bool
is_closed total idle fed = leb total fed
is_closed total (feeding bytes i) fed = false
is_closed total (finishing i) fed = leb total fed
is_closed total (closing i) fed = true

abbrev pub Shut : Producer → ℕ → Bool → Type 0
Shut (closing i) j eof = ltb j i ≡ true → eof ≡ true
Shut idle j eof = Unit {0}
Shut (feeding bytes i) j eof = Unit {0}
Shut (finishing i) j eof = Unit {0}

pub record Flows (content : Bytes) (total size : ℕ) (p : Producer) (fed j : ℕ) (b : TeeBranch)
    (m : Mirror) : Type 0 where
  pub sized : b.capacity ≡ size
  pub counted : b.buffered ≡ length (joined b.chunks)
  pub bounded : (b.buffered ≤ b.capacity) ⊎ (length b.chunks ≡ 1)
  pub prefix : (rest : Bytes) × (m.got ++ rest ≡ content)
  pub whole : b.detached ≡ false → m.got ++ joined b.chunks ≡ take (level p fed j) content
  pub closed : b.eof ≡ true → is_closed total p fed ≡ true
  pub ended : m.phase ≡ Phase.ended → (b.eof ≡ true) × (m.got ≡ take fed content)
  pub shut : Shut p j b.eof
  pub solid : All (λ (c : Bytes). 0 < length c) b.chunks

pub level-closed :
    (total : ℕ) (p : Producer) (fed j : ℕ) → is_closed total p fed ≡ true → level p fed j ≡ fed
level-closed total idle fed j e = refl
level-closed total (feeding bytes i) fed j e = cc
level-closed total (finishing i) fed j e = refl
level-closed total (closing i) fed j e = refl
