-- ===== src/AlarmCache/Trace/Alternation.antt =====
-- Under every interleaving an alert is accepted at most once until its resolution is accepted.
use tenderduty_nos.Prelude.{
  String, Bool, true, false, not, ◌≡◌, ◌<◌, refl, ◌∙◌, arith, List, [], ◌∷◌, All, Time, is_zero,
  time_at, str_eq→eq, str_eq_sym, str_eq_refl,
}
use tenderduty_nos.AlarmCache.Defs.{
  NotifyDest, AlarmCache, sent_map, reserve_delivery, complete_delivery,
}
use tenderduty_nos.AlarmCache.Phase.{
  phase, reserve_delivery_iff, phase-reserve_delivery, phase-complete_delivery,
  sent_map-complete_delivery, sent_map-reserve_delivery, phase-is_raised,
  phase-record_dashboard_alarm, sent_map-record_dashboard_alarm, phase-clear_no_blocks,
  sent_map-clear_no_blocks,
}
use tenderduty_nos.AlarmCache.Trace.{
  Delivery, World, Pick, first, later, finished, Step, reserve, refuse, finish, note, clear, Reach,
  here, next, start, is_raised, Alternates, same_key, Owns, Distinct, Inv,
}

Owned-reserve :
    (now : Time) (a : AlarmCache) (x : Delivery) (ys : List Delivery)
    → (reserve_delivery now a x.msg x.dest).1 ≡ true
    → All (Owns a) ys
    → All (Owns (reserve_delivery now a x.msg x.dest).0) ys × All (λ y. same_key x y ≡ false) ys
Owned-reserve now a x [] h o = (tt, tt)
Owned-reserve now a x (y ∷ ys) h (p, o) = ground (
  arith,
  Owned-reserve now a x ys h o,
  reserve_delivery_iff now a x.msg x.dest,
  phase-reserve_delivery now a x.msg x.dest y.dest y.msg.message,
  str_eq→eq y.msg.message x.msg.message,
)

Owned-finish :
    (now : Time) (a : AlarmCache) (x : Delivery) (accepted : Bool) (ys : List Delivery)
    → 0 < now
    → Owns a x
    → All (λ y. same_key x y ≡ false) ys
    → All (Owns a) ys
    → All (Owns (complete_delivery now a x.msg x.dest accepted)) ys
Owned-finish now a x accepted [] clock h d o = tt
Owned-finish now a x accepted (y ∷ ys) clock h (e, d) (p, o) = ground (
  arith,
  Owned-finish now a x accepted ys clock h d o,
  phase-complete_delivery now a x.msg x.dest y.dest y.msg.message accepted clock h,
)

Pick-All {κ} :
    (P : Delivery → Type κ) {x : Delivery} {xs ys : List Delivery}
    → Pick x xs ys
    → All P xs
    → P x × All P ys
Pick-All P first h = h
Pick-All P (later p) (h, hs) = let (hx, hys) = Pick-All P p hs in (hx, (h, hys))

same_key-sym : (x y : Delivery) → same_key x y ≡ false → same_key y x ≡ false
same_key-sym x y h = ground (arith, str_eq_sym x.msg.message y.msg.message)

Pick-Distinct :
    {x : Delivery} {xs ys : List Delivery}
    → Pick x xs ys
    → Distinct xs
    → All (λ y. same_key x y ≡ false) ys × Distinct ys
Pick-Distinct first h = h
Pick-Distinct {x} (later {y = y} p) (h, hs) =
    let (apart, rest) = Pick-Distinct p hs in
    let (hx, hys) = Pick-All (λ z. same_key y z ≡ false) p h in
    ((same_key-sym y x hx, apart), (hys, rest))

finish-agrees :
    (now : Time) (a b : AlarmCache) (log : List Delivery) (x : Delivery) (accepted : Bool)
    (d : NotifyDest) (m : String)
    → 0 < now
    → is_raised a log d m ≡ not (is_zero (time_at m (sent_map b d)))
    → is_raised a
        (finished now (record { cache = b; pending = []; log = log }) x accepted []).log
        d
        m
      ≡ not (is_zero (time_at m (sent_map (complete_delivery now b x.msg x.dest accepted) d)))
unfolding is_raised
finish-agrees now a b log x true d m clock h =
    ground (arith, sent_map-complete_delivery now b x.msg x.dest d m true)
finish-agrees now a b log x false d m clock h =
    ground (arith, sent_map-complete_delivery now b x.msg x.dest d m false)

finish-Alternates :
    (now : Time) (a : AlarmCache) (w : World) (x : Delivery) (accepted : Bool)
    → Inv a w
    → Owns w.cache x
    → Alternates a (finished now w x accepted []).log
finish-Alternates now a w x true v h = (
  v.agrees x.dest x.msg.message ∙ phase-is_raised w.cache x.dest x.msg.message x.msg.resolved h,
  v.alternates,
)
finish-Alternates now a w x false v h = v.alternates

Owned-dashboard :
    (a b : AlarmCache) (ys : List Delivery)
    → ((d : NotifyDest) (m : String) → phase b d m ≡ phase a d m)
    → All (Owns a) ys
    → All (Owns b) ys
Owned-dashboard a b [] h o = tt
Owned-dashboard a b (y ∷ ys) h (p, o) = (h y.dest y.msg.message ∙ p, Owned-dashboard a b ys h o)

Step-Inv : {a : AlarmCache} {w u : World} → Step w u → Inv a w → Inv a u
Step-Inv (reserve w now x h) v =
    let (owned, apart) = Owned-reserve now w.cache x w.pending h v.owned in
    record {
      owned = (
        ground (
          arith,
          reserve_delivery_iff now w.cache x.msg x.dest,
          phase-reserve_delivery now w.cache x.msg x.dest x.dest x.msg.message,
          str_eq_refl x.msg.message,
        ),
        owned,
      );
      distinct = (apart, v.distinct);
      agrees = λ d m. rw sent_map-reserve_delivery (v.agrees d m);
      alternates = v.alternates;
    }
Step-Inv (refuse w now x h) v = record {
  owned =
      Owned-dashboard w.cache _ w.pending
        (λ d m. phase-reserve_delivery now w.cache x.msg x.dest d m ∙ (rw h)) v.owned;
  distinct = v.distinct;
  agrees = λ d m. rw sent_map-reserve_delivery (v.agrees d m);
  alternates = v.alternates;
}
Step-Inv {a} (finish w now x accepted clock p) v =
    let (own, rest) = Pick-All (Owns w.cache) p v.owned in
    let (apart, distinct) = Pick-Distinct p v.distinct in
    record {
      owned = Owned-finish now w.cache x accepted _ clock own apart rest;
      distinct = distinct;
      agrees = λ d m. finish-agrees now a w.cache w.log x accepted d m clock (v.agrees d m);
      alternates = finish-Alternates now a w x accepted v own;
    }
Step-Inv (note w now chain message resolved) v = record {
  owned =
      Owned-dashboard w.cache _ w.pending
        (phase-record_dashboard_alarm now w.cache chain message resolved) v.owned;
  distinct = v.distinct;
  agrees = λ d m. rw sent_map-record_dashboard_alarm (v.agrees d m);
  alternates = v.alternates;
}
Step-Inv (clear w chain) v = record {
  owned = Owned-dashboard w.cache _ w.pending (phase-clear_no_blocks w.cache chain) v.owned;
  distinct = v.distinct;
  agrees = λ d m. rw sent_map-clear_no_blocks (v.agrees d m);
  alternates = v.alternates;
}

start-Inv : (a : AlarmCache) → Inv a (start a)
unfolding is_raised
start-Inv a = record { owned = tt; distinct = tt; agrees = λ d m. refl; alternates = tt }

Reach-Inv : {a : AlarmCache} {w : World} → Reach (start a) w → Inv a w
Reach-Inv {a} here = start-Inv a
Reach-Inv (next r s) = Step-Inv s (Reach-Inv r)

-- From any cache with no delivery in progress on the workers' side, and under every interleaving of
-- reservations, refusals, completions and dashboard updates, the accepted deliveries of each message
-- at each destination alternate: an alert is accepted only where none stands, and a resolution only
-- where its alert stands.
pub Reach-Alternates : (a : AlarmCache) {w : World} → Reach (start a) w → Alternates a w.log
Reach-Alternates a r = (Reach-Inv r).alternates
