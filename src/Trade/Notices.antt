-- ===== src/Trade/Notices.antt =====
-- Which reports `onMessage` of `TradeService` hands to the listeners, and in which order.
use sample.Base.{
  ℕ, zero, suc, ◌+◌, Bool, true, false, String, List, [], ◌∷◌, ◌++◌, Option, some, some-inj, ◌≡◌,
  refl, sym, ap, ◌∙◌, map, if◌then◌else◌, length, ◌>>=◌, >>=-eq-some,
}
use sample.External.{Rapidjson, Doubles}
use sample.Trade.{Output}
use sample.Trade.Reports.{each_report, reports}

-- Every listener gets every report, the reports one after another.
abbrev pub told : {L R O : Type 0} → (L → R → O) → List L → List R → List O
told call ls [] = []
told call ls (r ∷ rs) = map (λ l. call l r) ls ++ told call ls rs

module _ (J : Rapidjson) where
  open J use {Value, parse, has_member, member, size, element}

  -- `rs` are what `read` makes of the elements of an array from the index `i` on.
  pub data Reads {R : Type 0} (read : Value → Option R) (values : Value) : ℕ → List R → Type 0 where
    done : {i : ℕ} → Reads read values i []
    next :
        {i : ℕ} (v : Value) {r : R} {rs : List R}
        → element values i ≡ some v
        → read v ≡ some r
        → Reads read values (i + 1) rs
        → Reads read values i (r ∷ rs)

  -- What a member of a message holds: nothing when it is missing, else all that its array holds.
  pub data Holds {R : Type 0} (read : Value → Option R) (doc : Value) (name : String)
      : List R → Type 0 where
    missing : has_member doc name ≡ some false → Holds read doc name []
    present :
        (values : Value) {rs : List R}
        → has_member doc name ≡ some true
        → member doc name ≡ some values
        → size values ≡ some (length rs)
        → Reads read values 0 rs
        → Holds read doc name rs

module _ (J : Rapidjson) (D : Doubles) {L R : Type 0} (read : J.Value → Option R)
    (call : L → R → Output L D.Double) (ls : List L) where
  Reads-each_report :
      (values : J.Value) (i : ℕ) (rs : List R)
      → Reads J read values i rs
      → each_report J D read call ls values (length rs) i ≡ some (told call ls rs)
  unfolding each_report
  Reads-each_report values i [] done = refl
  Reads-each_report values i (r ∷ rs) (next v e e' h) =
      rw (e, e', Reads-each_report values (i + 1) rs h) refl

  each_report-Reads :
      (values : J.Value) (n i : ℕ) {out : List (Output L D.Double)}
      → each_report J D read call ls values n i ≡ some out
      → (rs : List R) × (length rs ≡ n) × Reads J read values i rs × (out ≡ told call ls rs)
  unfolding each_report
  each_report-Reads values zero i e = ([], refl, done, sym (some-inj e))
  each_report-Reads values (suc n) i e =
      let (v, ev, e1) = >>=-eq-some (J.element values i) _ e in
      let (r, er, e2) = >>=-eq-some (read v) _ e1 in
      let (more, em, e3) = >>=-eq-some (each_report J D read call ls values n (i + 1)) _ e2 in
      let (rs, len, h, is) = each_report-Reads values n (i + 1) em in
      (
        r ∷ rs,
        ap suc len,
        next v ev er h,
        sym (some-inj e3) ∙ ap (λ o. map (λ l. call l r) ls ++ o) is,
      )

  -- The reports of a member, when the message has it, are told; conversely a member that reads in
  -- full is told.
  pub reports-Holds :
      (doc : J.Value) (name : String) {out : List (Output L D.Double)}
      → reports J D name read call ls doc ≡ some out
      → (rs : List R) × Holds J read doc name rs × (out ≡ told call ls rs)
  unfolding reports
  reports-Holds doc name e =
      let (has, eh, e1) = >>=-eq-some (J.has_member doc name) _ e in split has eh e1
    where
      split :
          (has : Bool) {out : List (Output L D.Double)}
          → J.has_member doc name ≡ some has
          → (if has
              then (J.member doc name >>= λ values.
                  J.size values >>= λ n. each_report J D read call ls values n 0)
              else some [])
            ≡ some out
          → (rs : List R) × Holds J read doc name rs × (out ≡ told call ls rs)
      split false eh e = ([], missing eh, sym (some-inj e))
      split true eh e =
          let (values, ev, e1) = >>=-eq-some (J.member doc name) _ e in
          let (n, en, e2) = >>=-eq-some (J.size values) _ e1 in
          let (rs, len, h, is) = each_report-Reads values n 0 e2 in
          (rs, present values eh ev (en ∙ ap some (sym len)) h, is)

  -- When a member of a message is missing, or is an array each of whose elements reads as a
  -- report, the loop over it returns, and tells every listener of every report in the order of the
  -- array, of none if the member is missing.
  Holds-reports :
      (doc : J.Value) (name : String) (rs : List R)
      → Holds J read doc name rs
      → reports J D name read call ls doc ≡ some (told call ls rs)
  unfolding reports
  Holds-reports doc name rs (missing e) = rw e refl
  Holds-reports doc name rs (present values e e' e'' h) =
      rw (e, e', e'') (Reads-each_report values 0 rs h)
