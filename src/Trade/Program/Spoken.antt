-- ===== src/Trade/Program/Spoken.antt =====
-- Effects of `TradeService` that only send on its sessions, or do nothing on them.
use sample.Base.{
  Bool, true, false, String, List, [], ◌∷◌, ◌++◌, map, Option, ◌≡◌, refl, if◌then◌else◌, Returns,
}
use sample.Http
use sample.Trade.{Trade, Output, Effect}
use sample.Trade.Program.{ws_begins, http_begins}
use sample.Trade.Program.Speeches.{
  Settled, Says, nothing, Says-then, ws_begins-append, http_begins-append,
}

pub Returns-if :
    {A : Type 0} {P : A → Type 0} {x y : Option A} (b : Bool)
    → Returns P x
    → Returns P y
    → Returns P (if b then x else y)
Returns-if true h k = h
Returns-if false h k = k

pub settled : {L : Type 0} (t : Trade L) → Settled t t
settled t = record { host = refl; ws_host = refl }

module _ {L F : Type 0} where
  -- An effect that says something or nothing.
  abbrev pub Spoken : Trade L → Effect L F → Type 0
  Spoken t e = (ms : List String) × (rs : List Http.Request) × Says t e ms rs

  -- Outputs that begin nothing.
  abbrev pub Silent : List (Output L F) → Type 0
  Silent out = (ws_begins out ≡ []) × (http_begins out ≡ [])

  pub Silent-append : (xs ys : List (Output L F)) → Silent xs → Silent ys → Silent (xs ++ ys)
  Silent-append xs ys (a, b) (c, d) =
      (rw (ws_begins-append xs ys, a) c, rw (http_begins-append xs ys, b) d)

  pub Silent-map :
      {R : Type 0} (call : L → R → Output L F) (report : R) (ls : List L)
      → ((l : L) → Silent (call l report ∷ []))
      → Silent (map (λ l. call l report) ls)
  Silent-map call report [] each = (refl, refl)
  Silent-map call report (l ∷ ls) each =
      Silent-append (call l report ∷ []) (map (λ l. call l report) ls) (each l)
        (Silent-map call report ls each)

  pub only_tells : (t : Trade L) (out : List (Output L F)) → Silent out → Spoken t (t, out)
  only_tells t out (a, b) = ([], [], nothing t t refl refl (settled t) out a b)

  pub says_on :
      (t : Trade L) (e : Effect L F) (out : List (Output L F))
      → Spoken t e
      → Silent out
      → Spoken t (e.0, e.1 ++ out)
  says_on t e out (ms, rs, said) (a, b) = (
    ms ++ [],
    rs ++ [],
    Says-then t e (λ u. (u, out)) ms [] rs [] said
        (nothing e.0 e.0 refl refl (settled e.0) out a b),
  )

  pub Spoken-if :
      {t : Trade L} {e f : Effect L F} (b : Bool)
      → Spoken t e
      → Spoken t f
      → Spoken t (if b then e else f)
  Spoken-if true h k = h
  Spoken-if false h k = k
