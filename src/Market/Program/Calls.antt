-- ===== src/Market/Program/Calls.antt =====
-- What the calls of the session make `MarketDataService` say, and what they leave alone.
use mathlib.Core.Path.{subst}
use sample.Base.{
  ℕ, suc, String, List, [], ◌∷◌, ◌++◌, map, some, some-inj, >>=-eq-some, ◌≡◌, refl, sym, ap, ◌∙◌,
}
use sample.External.{Rapidjson, Doubles}
use sample.Ws.Runtime.Calls.{Call, connects, closes, says, fails}
use sample.Market.{Market, Output}
use sample.Market.Books.{AllSorted}
use sample.Market.Whole.{on_message-AllSorted}
use sample.Market.Kept.{Kept, on_message-Kept}
use sample.Market.Feed.{on_message}
use sample.Market.Link.{Service, tells, Effect, on_close, on_error}
use sample.Market.Program.{called, all_called}
use sample.Market.Program.Speeches.{
  only_tells, Says-then, book_text, trade_text, Says, nothing, on_connect-Says, on_connect_market,
}

-- What is said in a call.
abbrev pub said : (now : ℕ) → Call → List String
said now connects = book_text now ∷ trade_text (suc now) ∷ []
said now _ = []

-- What is said in some calls.
abbrev pub all_said : (now : ℕ) → List Call → List String
all_said now [] = []
all_said now (c ∷ more) = said now c ++ all_said now more

module _ (J : Rapidjson) (D : Doubles) {L : Type 0} where
  abbrev pub Books : Service L → Type 0
  Books s = AllSorted s.market.snapshot_map

  -- What a call of the session's leaves behind.
  pub record Left (s : Service L) (e : Effect L D.Double) (ms : List String) : Type 0 where
    pub says_so : Says s e ms
    pub same_id : e.0.market.id ≡ s.market.id
    pub sorted : Books s → Books e.0

  with_market :
      (s : Service L) (m : Market L) (out : List (Output L D.Double))
      → Kept s.market m
      → (Books s → AllSorted m.snapshot_map)
      → Left s (record s { market = m }, map tells out) []
  with_market s m out k v = record {
    says_so = only_tells s (record s { market = m }) out refl;
    same_id = k.id;
    sorted = v;
  }

  called-Left :
      (now : ℕ) (c : Call) (s : Service L) (e : Effect L D.Double)
      → called J D now c s ≡ some e
      → Left s e (said now c)
  unfolding called on_close on_error
  called-Left now connects s e is =
      let same = on_connect_market D.Double now s in
      subst (λ (x : Effect L D.Double). Left s x (said now connects)) (some-inj is)
        (record {
          says_so = on_connect-Says now s;
          same_id = ap (λ (m : Market L). m.id) same;
          sorted = λ v. subst (λ (m : Market L). AllSorted m.snapshot_map) (sym same) v;
        })
  called-Left now closes s e is =
      subst (λ (x : Effect L D.Double). Left s x []) (some-inj is)
        (record { says_so = nothing s s refl; same_id = refl; sorted = λ v. v })
  called-Left now (fails ec) s e is =
      subst (λ (x : Effect L D.Double). Left s x []) (some-inj is)
        (record { says_so = nothing s _ refl; same_id = refl; sorted = λ v. v })
  called-Left now (says text) s e is =
      let ((m, out), read, rest) = >>=-eq-some (on_message J D text s.market) _ is in
      subst (λ (x : Effect L D.Double). Left s x []) (some-inj rest)
        (with_market s m out (on_message-Kept J D text s.market m out read)
          (λ v. on_message-AllSorted J D text s.market m out v read))

  pub all_called-Left :
      (now : ℕ) (cs : List Call) (s : Service L) (e : Effect L D.Double)
      → all_called J D now cs s ≡ some e
      → Left s e (all_said now cs)
  unfolding all_called
  all_called-Left now [] s e is =
      subst (λ (x : Effect L D.Double). Left s x []) (some-inj is)
        (record { says_so = nothing s s refl; same_id = refl; sorted = λ v. v })
  all_called-Left now (c ∷ more) s e is =
      let (f, first, is1) = >>=-eq-some (called J D now c s) _ is in
      let (g, next, is2) = >>=-eq-some (all_called J D now more f.0) _ is1 in
      let a = called-Left now c s f first in
      let b = all_called-Left now more f.0 g next in
      subst (λ (x : Effect L D.Double). Left s x (said now c ++ all_said now more)) (some-inj is2)
        (record {
          says_so = Says-then s f (λ _. g) (said now c) (all_said now more) a.says_so b.says_so;
          same_id = b.same_id ∙ a.same_id;
          sorted = λ v. b.sorted (a.sorted v);
        })
