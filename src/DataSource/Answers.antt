-- ===== src/DataSource/Answers.antt =====
-- The answers of a source of the page, whose callers keep their options objects and write to them:
-- fuelux/dist/datagrid.js passes one object to every call of `data`.
use base_service.Base.{
  ℕ, zero, suc, ◌≡◌, refl, sym, ap, ◌∙◌, List, [], ◌∷◌, ◌++◌, map, arith, length, ◌==◌,
  if◌then◌else◌,
}
use mathlib.Core.List.{append-nil, append_assoc}
use base_service.Text.{Text}
use base_service.DataSource.{
  Numbers, Item, Options, Page, StaticDataSource, Pending, respond, request, elapse,
}

-- A request with an options object, a caller's assignment to the fields of one, and the end of the
-- first timeout that waits.
pub data Event : Type 0 where
  asking : ℕ → Event
  writing : ℕ → Options → Event
  timeout : Event

abbrev pub assign : ℕ → Options → (ℕ → Options) → ℕ → Options
assign k o os r = if k == r then o else os r

-- No timeout ends.
abbrev pub NoTimeout : List Event → Type 0
NoTimeout [] = Unit
NoTimeout (timeout ∷ es) = ⊥
NoTimeout (_ ∷ es) = NoTimeout es

abbrev pub asked : List Event → List ℕ
asked [] = []
asked (asking r ∷ es) = r ∷ asked es
asked (_ ∷ es) = asked es

-- What was written last to an object, or what it was before.
abbrev pub last_written : ℕ → List Event → Options → Options
last_written r [] o = o
last_written r (writing k o' ∷ es) o = last_written r es (if k == r then o' else o)
last_written r (_ ∷ es) o = last_written r es o

module _ {N : Type 0} (n : Numbers N) (lower : Text → Text)
    (sort_by : Text → List (Item N) → List (Item N)) (s : StaticDataSource N) where
  pub handle : Event → Pending N → Pending N
  unfolding request elapse
  handle (asking r) p = request n lower sort_by s r p
  handle (writing k o) p = record p { objects = assign k o p.objects }
  handle timeout p = elapse n lower sort_by s p

  pub handle_all : List Event → Pending N → Pending N
  handle_all [] p = p
  handle_all (e ∷ es) p = handle_all es (handle e p)

  pub elapse_times : ℕ → Pending N → Pending N
  elapse_times zero p = p
  elapse_times (suc k) p = elapse_times k (elapse n lower sort_by s p)

  abbrev pub answer_of : Options → Page N
  answer_of = respond n lower sort_by s

  handle_all-waiting :
      (es : List Event) (p : Pending N)
      → NoTimeout es
      → let q = handle_all es p in
        (q.waiting ≡ p.waiting ++ asked es)
        × (q.answered ≡ p.answered)
        × ((r : ℕ) → q.objects r ≡ last_written r es (p.objects r))
  unfolding handle_all handle request
  handle_all-waiting [] p h = (sym (append-nil p.waiting), refl, λ r. refl)
  handle_all-waiting (asking r ∷ es) p h =
      let (w, a, o) = handle_all-waiting es (handle (asking r) p) h in
      (w ∙ append_assoc p.waiting (r ∷ []) (asked es), a, o)
  handle_all-waiting (writing k o' ∷ es) p h = handle_all-waiting es (handle (writing k o') p) h
  handle_all-waiting (timeout ∷ es) p h = absurd h

  elapse_first :
      (k : ℕ) (os : ℕ → Options) (rs : List ℕ) (done : List (Page N))
      → length rs ≡ k
      → let q = elapse_times k (record { objects = os; waiting = rs; answered = done }) in
        (q.waiting ≡ []) × (q.answered ≡ done ++ map (λ r. answer_of (os r)) rs)
  unfolding elapse_times elapse
  elapse_first zero os [] done h = (refl, sym (append-nil done))
  elapse_first zero os (r ∷ rs) done h = absurd (omega arith)
  elapse_first (suc k) os [] done h = absurd (omega arith)
  elapse_first (suc k) os (r ∷ rs) done h =
      let (w, a) = elapse_first k os rs (done ++ answer_of (os r) ∷ []) (omega arith) in
      (w, a ∙ append_assoc done (answer_of (os r) ∷ []) (map (λ r. answer_of (os r)) rs))

  map-answer_of :
      (f g : ℕ → Options)
      → ((r : ℕ) → f r ≡ g r)
      → (rs : List ℕ) → map (λ r. answer_of (f r)) rs ≡ map (λ r. answer_of (g r)) rs
  map-answer_of f g h [] = refl
  map-answer_of f g h (r ∷ rs) =
      ap (λ o. answer_of o ∷ map (λ r. answer_of (f r)) rs) (h r)
      ∙ ap (answer_of (g r) ∷◌) (map-answer_of f g h rs)

  -- From any state, after requests and assignments to the options objects before any timeout ends,
  -- the timeouts then answer every request that waits, in the order of the requests, with the page
  -- that its options object asks for as it was written last, also after the request; no timeout
  -- waits.
  pub elapse_times-handle_all :
      (es : List Event) (p : Pending N)
      → NoTimeout es
      → let q = handle_all es p in
        let z = elapse_times (length q.waiting) q in
        (z.waiting ≡ [])
        × (z.answered
            ≡ p.answered
              ++ map (λ r. answer_of (last_written r es (p.objects r))) (p.waiting ++ asked es))
  elapse_times-handle_all es p h =
      let q = handle_all es p in
      let (w, a, o) = handle_all-waiting es p h in
      let (w', a') = elapse_first (length q.waiting) q.objects q.waiting q.answered refl in
      (
        w',
        a'
            ∙ ap (λ done. done ++ map (λ r. answer_of (q.objects r)) q.waiting) a
            ∙ ap (λ rs. p.answered ++ map (λ r. answer_of (q.objects r)) rs) w
            ∙ ap (p.answered ++◌)
                (map-answer_of q.objects (λ r. last_written r es (p.objects r)) o _),
      )
