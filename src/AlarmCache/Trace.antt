-- ===== src/AlarmCache/Trace.antt =====
-- Every interleaving of the delivery workers over one cache: a worker reserves, sends, and completes
-- at any later time, while others come and go and the dashboard alarms change.
pub mod Alternation
pub mod Spacing
use tenderduty_nos.Prelude.{
  String, Bool, true, false, not, ◌≡◌, ◌<◌, if◌then◌else◌, List, [], ◌∷◌, All, Time, is_zero,
  time_at,
}
use tenderduty_nos.AlarmCache.Defs.{
  AlertMsg, NotifyDest, AlarmCache, sent_map, reserve_delivery, complete_delivery, clear_no_blocks,
  record_dashboard_alarm,
}
use tenderduty_nos.AlarmCache.Phase.{phase, is_key, claimed}

pub record Delivery : Type 0 where
  pub msg : AlertMsg
  pub dest : NotifyDest

-- The cache, the deliveries that hold a reservation, and those that were accepted, newest first.
pub record World : Type 0 where
  pub cache : AlarmCache
  pub pending : List Delivery
  pub log : List Delivery

-- Taking one delivery out of the pending ones.
pub data Pick (x : Delivery) : List Delivery → List Delivery → Type 0 where
  first : {xs : List Delivery} → Pick x (x ∷ xs) xs
  later : {y : Delivery} {xs ys : List Delivery} → Pick x xs ys → Pick x (y ∷ xs) (y ∷ ys)

abbrev pub finished : Time → World → Delivery → Bool → List Delivery → World
finished now w x accepted rest = record {
  cache = complete_delivery now w.cache x.msg x.dest accepted;
  pending = rest;
  log = if accepted then x ∷ w.log else w.log;
}

pub data Step : World → World → Type 0 where
  reserve :
      (w : World) (now : Time) (x : Delivery)
      → (reserve_delivery now w.cache x.msg x.dest).1 ≡ true
      → Step w (record w {
        cache = (reserve_delivery now w.cache x.msg x.dest).0;
        pending = x ∷ w.pending;
      })
  refuse :
      (w : World) (now : Time) (x : Delivery)
      → (reserve_delivery now w.cache x.msg x.dest).1 ≡ false
      → Step w (record w { cache = (reserve_delivery now w.cache x.msg x.dest).0 })
  finish :
      (w : World) (now : Time) (x : Delivery) (accepted : Bool) {rest : List Delivery}
      → 0 < now
      → Pick x w.pending rest
      → Step w (finished now w x accepted rest)
  note :
      (w : World) (now : Time) (chain message : String) (resolved : Bool)
      → Step w (record w { cache = record_dashboard_alarm now w.cache chain message resolved })
  clear : (w : World) (chain : String) → Step w (record w { cache = clear_no_blocks w.cache chain })

pub data Reach (v : World) : World → Type 0 where
  here : Reach v v
  next : {w u : World} → Reach v w → Step w u → Reach v u

abbrev pub start : AlarmCache → World
start a = record { cache = a; pending = []; log = [] }

-- Is the message raised at the destination after these accepted deliveries, from the cache `a`?
pub is_raised : AlarmCache → List Delivery → NotifyDest → String → Bool
is_raised a [] d m = not (is_zero (time_at m (sent_map a d)))
is_raised a (x ∷ log) d m =
    if is_key x.msg x.dest d m then not x.msg.resolved else is_raised a log d m

-- Each accepted delivery found its message in the other state: an alert is accepted only where none
-- stands, a resolution only where its alert stands.
abbrev pub Alternates : AlarmCache → List Delivery → Type 0
Alternates a [] = Unit
Alternates a (x ∷ log) = (is_raised a log x.dest x.msg.message ≡ x.msg.resolved) × Alternates a log

abbrev same_key : Delivery → Delivery → Bool
same_key x y = is_key x.msg x.dest y.dest y.msg.message

abbrev pub Owns : AlarmCache → Delivery → Type 0
Owns a x = phase a x.dest x.msg.message ≡ claimed x.msg.resolved

abbrev Distinct : List Delivery → Type 0
Distinct [] = Unit
Distinct (x ∷ xs) = All (λ y. same_key x y ≡ false) xs × Distinct xs

record Inv (a : AlarmCache) (w : World) : Type 0 where
  owned : All (Owns w.cache) w.pending
  distinct : Distinct w.pending
  agrees :
      (d : NotifyDest) (m : String)
      → is_raised a w.log d m ≡ not (is_zero (time_at m (sent_map w.cache d)))
  alternates : Alternates a w.log
