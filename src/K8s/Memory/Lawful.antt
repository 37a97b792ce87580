-- ===== src/K8s/Memory/Lawful.antt =====
-- The cluster in memory is a lawful Kubernetes API with a filtered cache that is always fresh.
pub mod Selective
use mathlib.Core.Path.{subst}
use kube_vim.Common.{true, Bool, String, false, inl, inr, ◌≡◌, refl, sym, ◌∙◌, ap, some}
use kube_vim.Go.Laws.{Reply-cases}
use kube_vim.K8s.Objects.{Kind, Object}
use kube_vim.K8s.Client.{ObjectKey, key_of}
use kube_vim.K8s.Lawful.{IsLawful, IsSynced, IsGoing, has_finalizers, same_ref}
use kube_vim.K8s.Memory.{
  Cluster, cache_namespace, stored_in, create_in, replace_in, delete_in, memory, memory_errors,
}
use kube_vim.K8s.Memory.Laws.{
  stored_in-key, get_in-found, get_in-missing, get_in-state, cached_get-found, cached_get-missing,
  cached_get-state,
}
use kube_vim.K8s.Memory.Writes.{
  create_in-answer, create_in-refuse, replace_in-answer, replace_in-refuse, stored-after_create,
  stored-after_replace, other-after_create, other-after_replace, delete_in-answer, delete_in-refuse,
  stored-after_delete, other-after_delete, left_under,
}

at_state :
    (s s' : Cluster) (j : Kind) (other : ObjectKey)
    → s ≡ s'
    → stored_in s j other ≡ stored_in s' j other
at_state s s' j other h = ap (λ x. stored_in x j other) h

create_in-other :
    (k : Kind) (o : Object k) (s : Cluster) (j : Kind) (other : ObjectKey)
    → same_ref k (key_of o.meta) j other ≡ false
    → stored_in (create_in k o s).1 j other ≡ stored_in s j other
create_in-other k o s j other ne = elim (Reply-cases (create_in k o s).0) [
  | inl (o', h) ↦
      at_state _ _ j other (create_in-answer k o s o' h).1 ∙ other-after_create k o s j other ne
  | inr (e, h) ↦ at_state _ _ j other (create_in-refuse k o s e h).0
]

replace_in-other :
    (k : Kind) (o : Object k) (s : Cluster) (j : Kind) (other : ObjectKey)
    → same_ref k (key_of o.meta) j other ≡ false
    → stored_in (replace_in k o s).1 j other ≡ stored_in s j other
replace_in-other k o s j other ne = elim (Reply-cases (replace_in k o s).0) [
  | inl (o', h) ↦
      at_state _ _ j other (replace_in-answer k o s o' h).1 ∙ other-after_replace k o s j other ne
  | inr (e, h) ↦ at_state _ _ j other (replace_in-refuse k o s e h)
]

delete_in-other :
    (k : Kind) (key : ObjectKey) (s : Cluster) (j : Kind) (other : ObjectKey)
    → same_ref k key j other ≡ false
    → stored_in (delete_in k key s).1 j other ≡ stored_in s j other
delete_in-other k key s j other ne = elim (Reply-cases (delete_in k key s).0) [
  | inl (done, h) ↦
      let (old, found, after) = delete_in-answer k key s done h in
      at_state _ _ j other after ∙ other-after_delete k key s old found j other ne
  | inr (e, h) ↦ at_state _ _ j other (delete_in-refuse k key s e h).0
]

left_under-IsGoing : {k : Kind} (held : Bool) (old : Object k) → IsGoing (left_under held old)
left_under-IsGoing true old = refl
left_under-IsGoing false old = tt

pub memory_lawful : IsLawful memory memory_errors
unfolding key_of
memory_lawful = record {
  stored = stored_in;
  stored_key = λ s k key o h. stored_in-key k s key o h;
  live_get_keeps = λ k key s j other. at_state _ _ j other (get_in-state k key s);
  live_get_found = λ k key s o h. get_in-found k key s o h;
  live_get_missing = λ k key s e h nf. get_in-missing k key s e h;
  create_stores = λ k o s o' h.
      let (made, after) = create_in-answer k o s o' h in
      at_state _ _ k (key_of o.meta) after ∙ stored-after_create k o s ∙ ap some made;
  create_labels = λ k o s o' h. sym (ap (λ x. x.meta.labels) (create_in-answer k o s o' h).0);
  create_annotations =
      λ k o s o' h. sym (ap (λ x. x.meta.annotations) (create_in-answer k o s o' h).0);
  create_key = λ k o s o' h. sym (ap (λ x. key_of x.meta) (create_in-answer k o s o' h).0);
  create_spec = λ k o s o' h. sym (ap (λ x. x.spec) (create_in-answer k o s o' h).0);
  create_other = λ k o s j other ne. create_in-other k o s j other ne;
  create_refused = λ k o s e j other h. at_state _ _ j other (create_in-refuse k o s e h).0;
  create_exists = λ k o s e h yes. (create_in-refuse k o s e h).1;
  patch_stores = λ k o s o' h.
      let (same, after) = replace_in-answer k o s o' h in
      at_state _ _ k (key_of o.meta) after ∙ stored-after_replace k o s ∙ ap some same;
  patch_labels = λ k o s o' h. sym (ap (λ x. x.meta.labels) (replace_in-answer k o s o' h).0);
  patch_spec = λ k o s o' h. sym (ap (λ x. x.spec) (replace_in-answer k o s o' h).0);
  patch_other = λ k o s j other ne. replace_in-other k o s j other ne;
  patch_refused = λ k o s e j other h. at_state _ _ j other (replace_in-refuse k o s e h);
  delete_marks = λ k key s done h.
      let (old, found, after) = delete_in-answer k key s done h in
      subst IsGoing (sym (at_state _ _ k key after ∙ stored-after_delete k key s old found))
        (left_under-IsGoing (has_finalizers k) old);
  delete_removes = λ k key s done free h.
      let (old, found, after) = delete_in-answer k key s done h in
      at_state _ _ k key after
      ∙ stored-after_delete k key s old found
      ∙ ap (λ held. left_under held old) free;
  delete_missing = λ k key s e h yes. (delete_in-refuse k key s e h).1;
  delete_other = λ k key s j other ne. delete_in-other k key s j other ne;
  delete_refused = λ k key s e j other h. at_state _ _ j other (delete_in-refuse k key s e h).0;
}

pub memory-IsSynced : IsSynced memory_lawful cache_namespace
unfolding memory_lawful
memory-IsSynced = record {
  get_keeps = λ k key s j other. at_state _ _ j other (cached_get-state k key s);
  get_found = λ k key s o h. cached_get-found k key s o h;
  get_missing = λ k key s e o h nf present. cached_get-missing k key s e o h present;
}

pub memory_lawful-stored :
    (s : Cluster) (k : Kind) (key : ObjectKey) → memory_lawful.stored s k key ≡ stored_in s k key
unfolding memory_lawful
memory_lawful-stored s k key = refl
