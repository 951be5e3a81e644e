-- ===== src/MultiSource/Reaching.antt =====
-- tgdcfs/core/multisource.py: in every state of a read, every piece that was not emitted is in one place.
use tgdcfs.Base.{
  ℕ, zero, suc, ◌≡◌, refl, ◌∙◌, sym, subst, List, [], ◌∷◌, nat_eq, string_eq, arith, All, String,
  if_both, max,
}
use tgdcfs.Crypto.Bytes.{Bytes}
use tgdcfs.MultiSource.{
  is_whole, MultiSourceRead, Piece, Worker, answered, init, Views, start_workers, slot_workers,
  make_pieces,
}
use tgdcfs.MultiSource.Steps.{Stores, Step, Reach, here, next}
use tgdcfs.MultiSource.Places.{count_workers, InFlight}
use tgdcfs.MultiSource.Pieces.{Numbered-Held, make_pieces-Numbered, count-Numbered}
use tgdcfs.MultiSource.Invariant.{IsSound}
use tgdcfs.MultiSource.Keeping.{
  claims-IsSound, rests-IsSound, failed-IsSound, succeeded-IsSound, yields-IsSound, Answers-full,
  whole-bytes,
}

Step-IsSound :
    (stores : Stores) (r s : MultiSourceRead)
    → Step stores r s
    → IsSound stores.content r
    → IsSound stores.content s
unfolding answered
Step-IsSound stores r s (Step.claims key piece pending before after on w e same) h =
    subst (IsSound stores.content) (sym same)
      (claims-IsSound stores.content r key piece pending before after w e h)
Step-IsSound stores r s (Step.stops key before after on w e same) h =
    subst (IsSound stores.content) (sym same) (rests-IsSound stores.content r key before after w h)
Step-IsSound stores r s (Step.raises key piece before after on w f same) h =
    subst (IsSound stores.content) (sym same)
      (failed-IsSound stores.content r key piece before after w h)
Step-IsSound stores r s (Step.answers key piece out before after on w a same) h =
    subst (IsSound stores.content) (sym same) (
      if_both (IsSound stores.content) (is_whole piece out) _ _
        (λ full.
          succeeded-IsSound stores.content r key piece out before after w
            (Answers-full stores.content stores key piece out a full)
            (whole-bytes stores.content piece out full) h)
        (λ short. failed-IsSound stores.content r key piece before after w h))
Step-IsSound stores r s (Step.yields b on e same) h =
    subst (IsSound stores.content) (sym same) (yields-IsSound stores.content r b e h)
Step-IsSound stores r s (Step.gives_up on e same) h =
    subst (IsSound stores.content) (sym same) (record {
      counted = h.counted;
      complete = h.complete;
      waiting = h.waiting;
      flying = h.flying;
      fetched = h.fetched;
      emitted = h.emitted;
      solid = h.solid;
      within = h.within;
    })

no_slots :
    (i n : ℕ) (key : String) (ws : List Worker)
    → count_workers i (slot_workers n key ws) ≡ count_workers i ws
unfolding slot_workers
no_slots i zero key ws = refl
no_slots i (suc n) key ws = no_slots i n key ws

slots-InFlight :
    (P : Piece → Type 0) (n : ℕ) (key : String) (ws : List Worker)
    → All (InFlight P) ws
    → All (InFlight P) (slot_workers n key ws)
unfolding slot_workers
slots-InFlight P zero key ws h = h
slots-InFlight P (suc n) key ws h = (tt, slots-InFlight P n key ws h)

pub start-InFlight : (P : Piece → Type 0) (views : Views) → All (InFlight P) (start_workers views)
unfolding start_workers
start-InFlight P [] = tt
start-InFlight P ((key, slots) ∷ views) =
    slots-InFlight P (max 1 slots) key (start_workers views) (start-InFlight P views)

no_workers : (i : ℕ) (views : Views) → count_workers i (start_workers views) ≡ 0
unfolding start_workers
no_workers i [] = refl
no_workers i ((key, slots) ∷ views) =
    no_slots i (max 1 slots) key (start_workers views) ∙ no_workers i views

pub init-IsSound :
    (content : Bytes) (views : Views) (begin last size window : ℕ)
    → IsSound content (init views begin last size window)
unfolding init
init-IsSound content views begin last size window =
    let numbered = make_pieces-Numbered begin last size in
    let ps = make_pieces begin last size in
    record {
      counted = λ i. ground (arith, no_workers i views, count-Numbered i 0 ps numbered);
      complete = λ alive i. ground (arith, no_workers i views, count-Numbered i 0 ps numbered);
      waiting = Numbered-Held ps numbered;
      flying = start-InFlight _ views;
      fetched = tt;
      emitted = refl;
      solid = tt;
      within = omega arith;
    }

pub Reach-IsSound :
    (stores : Stores) (r s : MultiSourceRead)
    → IsSound stores.content r
    → Reach stores r s
    → IsSound stores.content s
Reach-IsSound stores r s h here = h
Reach-IsSound stores r s h (next {s = m} reached step) =
    Step-IsSound stores m s step (Reach-IsSound stores r m h reached)
