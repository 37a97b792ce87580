-- ===== src/K8s/Memory/Writes.antt =====
-- The writes to the cluster in memory, one lemma for what each of them answers.
use mathlib.Core.Path.{subst}
use kube_vim.Common.{
  true, Bool, List, ap, find, false, Option, none, some, ◌∷◌, ◌≡◌, refl, ◌∙◌, ◌⊎◌, inl, inr, arith,
  ◌+◌,
}
use kube_vim.Errors.{Error}
use kube_vim.Go.{answer, refuse}
use kube_vim.K8s.Objects.{Kind, Object}
use kube_vim.K8s.Client.{ObjectKey, key_of, same_key}
use kube_vim.K8s.Lawful.{same_ref, has_finalizers}
use kube_vim.K8s.Memory.{
  objects, without, at_key, marked, left_by_delete, Cluster, stored_in, create_in, replace_in,
  delete_in, write, filled,
}
use kube_vim.K8s.Memory.Laws.{
  stored-write, stored-write_other, find-cons_self, find-cons_other, find-replaced, find-removed,
  create_in-missing, create_in-exists, stored_in-key, find-without, same_key_iff,
}

Option-cases : {A : Type 0} (x : Option A) → (x ≡ none) ⊎ ((a : A) × (x ≡ some a))
Option-cases none = inl refl
Option-cases (some a) = inr (a, refl)

module _ (k : Kind) (o : Object k) (s : Cluster) where
  abbrev pub made : Object k
  made = record o { meta = filled s.next o.meta }

  abbrev pub after_create : Cluster
  after_create = record (write k (made ∷ objects k s.cells) s) { next = s.next + 1 }

  abbrev pub after_replace : Cluster
  after_replace = write k (o ∷ without (key_of o.meta) (objects k s.cells)) s

  pub create_in-answer :
      (o' : Object k)
      → (create_in k o s).0 ≡ answer o'
      → (made ≡ o') × ((create_in k o s).1 ≡ after_create)
  create_in-answer o' h = elim (Option-cases (stored_in s k (key_of o.meta))) [
    | inl missing ↦ let e = create_in-missing k o s missing in (cc, rw e)
    | inr (old, found) ↦ let e = create_in-exists k o s old found in absurd (cc)
  ]

  pub create_in-refuse :
      (e : Error)
      → (create_in k o s).0 ≡ refuse e
      → ((create_in k o s).1 ≡ s) × ((old : Object k) × (stored_in s k (key_of o.meta) ≡ some old))
  create_in-refuse e' h = elim (Option-cases (stored_in s k (key_of o.meta))) [
    | inl missing ↦ let e = create_in-missing k o s missing in absurd (cc)
    | inr (old, found) ↦ let e = create_in-exists k o s old found in (rw e, (old, found))
  ]

  pub replace_in-answer :
      (o' : Object k)
      → (replace_in k o s).0 ≡ answer o'
      → (o ≡ o') × ((replace_in k o s).1 ≡ after_replace)
  unfolding replace_in
  replace_in-answer o' h = ground arith

  pub replace_in-refuse : (e : Error) → (replace_in k o s).0 ≡ refuse e → (replace_in k o s).1 ≡ s
  unfolding replace_in
  replace_in-refuse e h = ground arith

  pub stored-after_create : stored_in after_create k (key_of o.meta) ≡ some made
  unfolding key_of
  stored-after_create =
      stored-write k (made ∷ objects k s.cells) s (key_of o.meta)
      ∙ find-cons_self made (objects k s.cells)

  pub stored-after_replace : stored_in after_replace k (key_of o.meta) ≡ some o
  stored-after_replace =
      stored-write k (o ∷ without (key_of o.meta) (objects k s.cells)) s (key_of o.meta)
      ∙ find-cons_self o (without (key_of o.meta) (objects k s.cells))

  pub other-after_create :
      (j : Kind) (other : ObjectKey)
      → same_ref k (key_of o.meta) j other ≡ false
      → stored_in after_create j other ≡ stored_in s j other
  unfolding key_of
  other-after_create =
      stored-write_other k (made ∷ objects k s.cells) s (key_of o.meta)
        (λ other ne. find-cons_other made (objects k s.cells) other ne)

  pub other-after_replace :
      (j : Kind) (other : ObjectKey)
      → same_ref k (key_of o.meta) j other ≡ false
      → stored_in after_replace j other ≡ stored_in s j other
  other-after_replace =
      stored-write_other k (o ∷ without (key_of o.meta) (objects k s.cells)) s (key_of o.meta)
        (λ other ne. find-replaced o (objects k s.cells) other ne)

-- What a deletion leaves under the key.
abbrev pub left_under : {k : Kind} → Bool → Object k → Option (Object k)
left_under true old = some (marked old)
left_under false old = none

find-left :
    {k : Kind} (held : Bool) (key : ObjectKey) (old : Object k) (xs : List (Object k))
    → key_of old.meta ≡ key
    → find (at_key key) (left_by_delete held key old xs) ≡ left_under held old
unfolding key_of
find-left true key old xs here =
    subst (λ a. find (at_key a) (marked old ∷ without key xs) ≡ some (marked old)) here
      (find-cons_self (marked old) (without key xs))
find-left false key old xs here = find-without key key xs ∙ rw ((same_key_iff key key).1 refl)

find-left_other :
    {k : Kind} (held : Bool) (key : ObjectKey) (old : Object k) (xs : List (Object k))
    (other : ObjectKey)
    → key_of old.meta ≡ key
    → same_key key other ≡ false
    → find (at_key other) (left_by_delete held key old xs) ≡ find (at_key other) xs
unfolding key_of
find-left_other true key old xs other here ne =
    find-cons_other (marked old) (without key xs) other (ap (λ a. same_key a other) here ∙ ne)
    ∙ find-removed key xs other ne
find-left_other false key old xs other here ne = find-removed key xs other ne

module _ (k : Kind) (key : ObjectKey) (s : Cluster) where
  abbrev pub after_delete : Object k → Cluster
  after_delete old = write k (left_by_delete (has_finalizers k) key old (objects k s.cells)) s

  pub delete_in-answer :
      (done : Unit {0})
      → (delete_in k key s).0 ≡ answer done
      → (old : Object k) × (stored_in s k key ≡ some old)
        × ((delete_in k key s).1 ≡ after_delete old)
  unfolding delete_in
  delete_in-answer done h = elim (Option-cases (stored_in s k key)) [
    | inl missing ↦ absurd (ground (arith, h, missing))
    | inr (old, found) ↦ (old, found, rw (delete_in, found) refl)
  ]

  pub delete_in-refuse :
      (e : Error)
      → (delete_in k key s).0 ≡ refuse e
      → ((delete_in k key s).1 ≡ s) × (stored_in s k key ≡ none)
  unfolding delete_in
  delete_in-refuse e h = ground arith

  pub stored-after_delete :
      (old : Object k)
      → stored_in s k key ≡ some old
      → stored_in (after_delete old) k key ≡ left_under (has_finalizers k) old
  stored-after_delete old found =
      stored-write k (left_by_delete (has_finalizers k) key old (objects k s.cells)) s key
      ∙ find-left (has_finalizers k) key old (objects k s.cells) (stored_in-key k s key old found)

  pub other-after_delete :
      (old : Object k)
      → stored_in s k key ≡ some old
      → (j : Kind) (other : ObjectKey) → same_ref k key j other ≡ false
      → stored_in (after_delete old) j other ≡ stored_in s j other
  other-after_delete old found =
      stored-write_other k (left_by_delete (has_finalizers k) key old (objects k s.cells)) s key
        (λ other ne.
          find-left_other (has_finalizers k) key old (objects k s.cells) other
            (stored_in-key k s key old found) ne)
