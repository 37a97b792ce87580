-- ===== src/Compute/Allocate/Polls.antt =====
-- The wait of internal/kubevim/compute/kubevirt/manager.go for a new machine ends.
use kube_vim.Common.{
  ℕ, zero, suc, ◌+◌, ◌*◌, ◌≤◌, ◌<◌, ◌⊎◌, true, false, some, ◌≡◌, refl, sym, ◌∙◌, arith, inl, inr,
  Bool-cases,
}
use kube_vim.Errors.{Error}
use kube_vim.Go.{Result, answer, refuse}
use kube_vim.Go.Laws.{Reply-cases}
use kube_vim.K8s.Objects.{Kind, Object}
use kube_vim.K8s.Client.{ObjectKey}
use kube_vim.Compute.Allocate.{AllocateEnv, poll_vmi, max_polls}

le_or_lt : (m n : ℕ) → (m ≤ n) ⊎ (n < m)
le_or_lt zero n = inl (omega arith)
le_or_lt (suc m) zero = inr (omega arith)
le_or_lt (suc m) (suc n) = elim (le_or_lt m n) [
  | inl le ↦ inl (omega (arith, le))
  | inr lt ↦ inr (omega (arith, lt))
]

true-false : true ≡ false → ⊥
true-false h = cc

module _ {S : Type 0} (a : AllocateEnv S) (key : ObjectKey) where
  -- The clock, in milliseconds since the wait began. A context that is past its deadline of 30 s lets
  -- no call tell that an object is missing, and a pause that is not cut off takes 500 ms.
  pub record IsTimed : Type 0 where
    pub now : S → ℕ
    pub get_forward : (s : S) → now s ≤ now (a.env.client.live_get Kind.vmi key s).1
    pub expired :
        (s : S) (e : Error)
        → 30000 ≤ now s
        → (a.env.client.live_get Kind.vmi key s).0 ≡ refuse e
        → a.env.errors.is_not_found e ≡ false
    pub pause_long : (s : S) → (a.pause s).0 ≡ false → now s + 500 ≤ now (a.pause s).1

  abbrev pub Returns : ℕ → S → Type 0
  Returns n s = (r : Result (Object Kind.vmi) × S) × (poll_vmi a n key s ≡ some r)

  -- The state after the poll.
  abbrev after_get : S → S
  after_get s = (a.env.client.live_get Kind.vmi key s).1

  refused-Returns :
      (n : ℕ) (s : S) (e : Error)
      → (a.env.client.live_get Kind.vmi key s).0 ≡ refuse e
      → a.env.errors.is_not_found e ≡ false
      → Returns (suc n) s
  unfolding poll_vmi
  refused-Returns n s e refused other = rw (refused, other) (_, refl)

  missing-Returns :
      (n : ℕ) (s : S) (e : Error)
      → (a.env.client.live_get Kind.vmi key s).0 ≡ refuse e
      → a.env.errors.is_not_found e ≡ true
      → ((a.pause (after_get s)).0 ≡ false → Returns n (a.pause (after_get s)).1)
      → Returns (suc n) s
  unfolding poll_vmi
  missing-Returns n s e refused missing again = elim (Bool-cases (a.pause (after_get s)).0) [
    | inl cut_off ↦ rw (refused, missing, cut_off) (_, refl)
    | inr waited ↦ rw (refused, missing, waited) (again waited)
  ]

  in_time :
      (t : IsTimed) (s : S) (e : Error)
      → (a.env.client.live_get Kind.vmi key s).0 ≡ refuse e
      → a.env.errors.is_not_found e ≡ true
      → t.now s < 30000
  in_time t s e refused missing = elim (le_or_lt 30000 (t.now s)) [
    | inl late ↦ absurd (true-false (sym missing ∙ t.expired s e late refused))
    | inr early ↦ early
  ]

  found-Returns :
      (n : ℕ) (s : S) (vmi : Object Kind.vmi)
      → (a.env.client.live_get Kind.vmi key s).0 ≡ answer vmi
      → Returns (suc n) s
  unfolding poll_vmi
  found-Returns n s vmi found = rw (found) (_, refl)

  -- A poll returns, or an object is missing and the deadline has not passed.
  poll-Returns :
      (t : IsTimed) (n : ℕ) (s : S)
      → (t.now s < 30000 → (a.pause (after_get s)).0 ≡ false → Returns n (a.pause (after_get s)).1)
      → Returns (suc n) s
  poll-Returns t n s again = elim (Reply-cases (a.env.client.live_get Kind.vmi key s).0) [
    | inl (vmi, found) ↦ found-Returns n s vmi found
    | inr (e, refused) ↦ elim (Bool-cases (a.env.errors.is_not_found e)) [
      | inr other ↦ refused-Returns n s e refused other
      | inl missing ↦ missing-Returns n s e refused missing (again (in_time t s e refused missing))
    ]
  ]

  poll_vmi-Returns : (t : IsTimed) (n : ℕ) (s : S) → 30000 ≤ t.now s + 500 * n → Returns (suc n) s
  poll_vmi-Returns t zero s late =
      poll-Returns t zero s λ early waited. absurd (omega (arith, late, early))
  poll_vmi-Returns t (suc n) s late = poll-Returns t (suc n) s λ early waited.
      poll_vmi-Returns t n (a.pause (after_get s)).1
        (omega (arith, late, t.get_forward s, t.pause_long (after_get s) waited))

  -- With a clock by which a pause that is not cut off takes 500 ms, and an API that reports
  -- nothing as missing after the deadline of 30 s, the wait for a new machine returns within 61
  -- polls, with the machine or with an error.
  pub poll_vmi-max_polls : IsTimed → (s : S) → Returns max_polls s
  poll_vmi-max_polls t s = poll_vmi-Returns t 60 s (omega arith)
