-- ===== src/Wire/Stuck.antt =====
-- A wire whose write has failed.
use mathlib.Core.Path.{subst}
use sample.Base.{
  sym, ap, ◌∙◌, Bool, true, false, List, [], ◌∷◌, ◌++◌, ◌≡◌, refl, arith, if◌then◌else◌, ◌&&◌, not,
  ◌≢◌,
}
use sample.Wire.{Wire, pump, start_next, Step, submit, open_up, ack, lose, idle}
use sample.Wire.Laws.{Inv, Flight}

-- A write was started, has not succeeded, and is outstanding no more.
abbrev pub Stuck : {A : Type 0} → Wire A → Type 0
Stuck w = (w.busy ≡ true) × (w.in_flight ≡ [])

pub not_empty :
    {A : Type 0} (before : List A) (m : A) (after : List A) → ¬ (before ++ m ∷ after ≡ [])
not_empty [] m after e = cc
not_empty (x ∷ before) m after e = cc

pump_busy : {A : Type 0} (w : Wire A) → w.busy ≡ true → pump w ≡ w
unfolding pump
pump_busy w b = ap (λ (c : Bool). if c then start_next w w.queue else w) (closed w.live w.busy b)
  where
    closed : (live busy : Bool) → busy ≡ true → (live && not busy) ≡ false
    closed live true e = ground arith
    closed live false e = cc

pump-Stuck : {A : Type 0} (w : Wire A) → Stuck w → Stuck (pump w) × ((pump w).written ≡ w.written)
pump-Stuck w s =
    (subst Stuck (sym (pump_busy w s.0)) s, ap (λ (v : Wire _). v.written) (pump_busy w s.0))

-- A stuck wire stays stuck, and writes nothing more.
pub Stuck-Step :
    {A : Type 0} {w v : Wire A} → Stuck w → Step w v → Stuck v × (v.written ≡ w.written)
Stuck-Step s (submit m) = pump-Stuck _ s
Stuck-Step s open_up = pump-Stuck _ s
Stuck-Step (b, f) (ack before m after e) = absurd (not_empty before m after (sym e ∙ f))
Stuck-Step (b, f) (lose before m after e) = absurd (not_empty before m after (sym e ∙ f))
Stuck-Step s idle = (s, refl)

-- While a write is outstanding the wire is busy.
pub flight_busy : {A : Type 0} {w : Wire A} → Inv w → w.in_flight ≢ [] → w.busy ≡ true
flight_busy {w = w} v h = occupied w.in_flight w.queue w.busy v.flight h
  where
    occupied : {A : Type 0} (fl q : List A) (busy : Bool) → Flight fl q busy → fl ≢ [] → busy ≡ true
    occupied [] q busy f h = absurd (h refl)
    occupied (m ∷ []) q busy f h = f.1
    occupied (m ∷ n ∷ ms) q busy f h = elim f [ ]
