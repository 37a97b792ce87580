-- ===== src/Flavour/Manager/Stored.antt =====
-- What CreateFlavour of internal/kubevim/flavour/kubevirt/manager.go leaves in the store.
use mathlib.Core.Path.{subst}
use kube_vim.Common.{
  inl, inr, Bool-cases, text_or_empty, ◌==◌, true, false, Option, some, ◌≡◌, refl, sym, ap, ◌∙◌,
  arith,
}
use kube_vim.Errors.{Error, ForeignErrors, wrap}
use kube_vim.Go.{Result, ok, err, answer, refuse, context, lift}
use kube_vim.Go.Laws.{bind-eq-ok, context-eq-ok, Reply-cases}
use kube_vim.K8s.Objects.{Kind, Object, is_object_instantiated}
use kube_vim.K8s.Client.{ObjectKey, key_of}
use kube_vim.K8s.Lawful.{IsLawful, same_ref}
use kube_vim.Network.Types.{Identifier}
use kube_vim.Flavour.Types.{VirtualComputeFlavour}
use kube_vim.Flavour.Convert.{
  instancetype_from_nfv_flavour, nfv_flavour_from_instancetype, flavour_name_from_id,
  flavour_preference_name_from_id,
}
use kube_vim.Flavour.Convert.RoundTrip.{
  ReadsBack, KeepsVolumes, StoredAs, ShowsFlavour, instancetype-BuiltFrom, flavour-round_trip,
}
use kube_vim.Flavour.Manager.{
  FlavourEnv, in_namespace, create_objects, create_flavour_as, create_flavour, flavour_id_or_new,
}

some_injective : {A : Type 0} {a b : A} → some a ≡ some b → a ≡ b
some_injective h = cc

ok_injective : {A : Type 0} {a b : A} → Path (Result A) (ok a) (ok b) → a ≡ b
ok_injective h = cc

module _ {S : Type 0} (env : FlavourEnv S) {errors : ForeignErrors}
    (l : IsLawful env.client errors) where
  abbrev pub instancetype_key : Identifier → ObjectKey
  instancetype_key id = record { namespace = env.namespace; name = flavour_name_from_id id }

  abbrev pub preference_key : Identifier → ObjectKey
  preference_key id = record {
    namespace = env.namespace;
    name = flavour_preference_name_from_id id;
  }

  -- Both objects stand in the store as they were sent, and no other has changed.
  pub record Written (inst_type : Object Kind.instancetype) (pref : Object Kind.preference)
      (s t : S) : Type 0 where
    made : Object Kind.instancetype
    made_pref : Object Kind.preference
    stored :
        l.stored t Kind.instancetype (key_of (in_namespace env.namespace inst_type).meta)
        ≡ some made
    stored_pref :
        l.stored t Kind.preference (key_of (in_namespace env.namespace pref).meta) ≡ some made_pref
    labels : made.meta.labels ≡ inst_type.meta.labels
    annotations : made.meta.annotations ≡ inst_type.meta.annotations
    spec : made.spec ≡ inst_type.spec
    pref_labels : made_pref.meta.labels ≡ pref.meta.labels
    pref_spec : made_pref.spec ≡ pref.spec
    pref_annotations : made_pref.meta.annotations ≡ pref.meta.annotations
    others :
        (j : Kind) (other : ObjectKey)
        → same_ref Kind.instancetype (key_of (in_namespace env.namespace inst_type).meta) j other
          ≡ false
        → same_ref Kind.preference (key_of (in_namespace env.namespace pref).meta) j other ≡ false
        → l.stored t j other ≡ l.stored s j other

  -- The instance type as it is sent, the state with it, and the same of the preference.
  module _ (id : Identifier) (inst_type : Object Kind.instancetype) (pref : Object Kind.preference)
      (s : S) where
    abbrev sent : Object Kind.instancetype
    sent = in_namespace env.namespace inst_type

    abbrev sent_pref : Object Kind.preference
    sent_pref = in_namespace env.namespace pref

    abbrev with_instancetype : S
    with_instancetype = (env.client.create Kind.instancetype sent s).1

    abbrev with_both : S
    with_both = (env.client.create Kind.preference sent_pref with_instancetype).1

    answered-Written :
        (made : Object Kind.instancetype) (made_pref : Object Kind.preference)
        → (env.client.create Kind.instancetype sent s).0 ≡ answer made
        → (env.client.create Kind.preference sent_pref with_instancetype).0 ≡ answer made_pref
        → Written inst_type pref s with_both
    answered-Written made made_pref first second = record {
      made = made;
      made_pref = made_pref;
      stored =
          l.create_other Kind.preference sent_pref with_instancetype Kind.instancetype
            (key_of sent.meta) refl
          ∙ l.create_stores Kind.instancetype sent s made first;
      stored_pref = l.create_stores Kind.preference sent_pref with_instancetype made_pref second;
      labels = l.create_labels Kind.instancetype sent s made first;
      annotations = l.create_annotations Kind.instancetype sent s made first;
      spec = l.create_spec Kind.instancetype sent s made first;
      pref_labels = l.create_labels Kind.preference sent_pref with_instancetype made_pref second;
      pref_annotations =
          l.create_annotations Kind.preference sent_pref with_instancetype made_pref second;
      pref_spec = l.create_spec Kind.preference sent_pref with_instancetype made_pref second;
      others = λ j other ne ne'.
          l.create_other Kind.preference sent_pref with_instancetype j other ne'
          ∙ l.create_other Kind.instancetype sent s j other ne;
    }

    answered_run :
        (made : Object Kind.instancetype) (made_pref : Object Kind.preference)
        → (env.client.create Kind.instancetype sent s).0 ≡ answer made
        → (env.client.create Kind.preference sent_pref with_instancetype).0 ≡ answer made_pref
        → create_objects env id (inst_type, pref) s ≡ (ok id, with_both)
    answered_run made made_pref first second = rw (first, second)

    -- A run that succeeds was answered twice.
    answered :
        (id' : Identifier)
        → (create_objects env id (inst_type, pref) s).0 ≡ ok id'
        → (made : Object Kind.instancetype) × (made_pref : Object Kind.preference)
          × ((env.client.create Kind.instancetype sent s).0 ≡ answer made)
          × ((env.client.create Kind.preference sent_pref with_instancetype).0 ≡ answer made_pref)
    answered id' h = elim (Reply-cases (env.client.create Kind.instancetype sent s).0) [
      | inr (e, refused) ↦ absurd (ground (arith, refused))
      | inl (made, first) ↦
          elim (Reply-cases (env.client.create Kind.preference sent_pref with_instancetype).0) [
            | inr (e, refused) ↦ absurd (ground (arith, first, refused))
            | inl (made_pref, second) ↦ (made, made_pref, first, second)
          ]
    ]

    created-Written :
        (id' : Identifier)
        → (create_objects env id (inst_type, pref) s).0 ≡ ok id'
        → (id ≡ id') × Written inst_type pref s (create_objects env id (inst_type, pref) s).1
    created-Written id' h =
        let (made, made_pref, first, second) = answered id' h in
        let run = answered_run made made_pref first second in
        (
          ok_injective (sym (ap (λ (r : Result Identifier × S). r.0) run) ∙ h),
          subst (λ t. Written inst_type pref s t)
              (sym (ap (λ (r : Result Identifier × S). r.1) run))
              (answered-Written made made_pref first second),
        )

  -- Drawing an id touches no object.
  pub record IsQuiet : Type 0 where
    pub at :
        (s : S) (j : Kind) (other : ObjectKey)
        → l.stored (env.new_uuid s).1 j other ≡ l.stored s j other

  id_or_new-keeps :
      (id : Option Identifier) (s : S) (j : Kind) (other : ObjectKey)
      → IsQuiet
      → l.stored (flavour_id_or_new env id s).1 j other ≡ l.stored s j other
  id_or_new-keeps id s j other quiet = elim (Bool-cases (text_or_empty id == "")) [
    | inl empty ↦ rw (empty) (quiet.at s j other)
    | inr given ↦ rw (given) refl
  ]

  Written-from :
      (inst_type : Object Kind.instancetype) (pref : Object Kind.preference) (r s t : S)
      → ((j : Kind) (other : ObjectKey) → l.stored s j other ≡ l.stored r j other)
      → Written inst_type pref s t
      → Written inst_type pref r t
  Written-from inst_type pref r s t same w = record {
    made = w.made;
    made_pref = w.made_pref;
    stored = w.stored;
    stored_pref = w.stored_pref;
    labels = w.labels;
    annotations = w.annotations;
    spec = w.spec;
    pref_labels = w.pref_labels;
    pref_annotations = w.pref_annotations;
    pref_spec = w.pref_spec;
    others = λ j other ne ne'. w.others j other ne ne' ∙ same j other;
  }

  -- What a flavour was turned into is what the store holds.
  pub record CreatedFlavour (f : VirtualComputeFlavour) (id : Identifier) (s t : S) : Type 0 where
    pub inst_type : Object Kind.instancetype
    pub pref : Object Kind.preference
    pub converted : instancetype_from_nfv_flavour env.json id (some f) ≡ ok (inst_type, pref)
    pub written : Written inst_type pref s t

  created_as :
      (f : VirtualComputeFlavour) (id : Identifier) (s : S) (id' : Identifier)
      → (create_flavour_as env f id s).0 ≡ ok id'
      → (id ≡ id') × CreatedFlavour f id s (create_flavour_as env f id s).1
  created_as f id s id' h =
      let convert =
        context "convert flavour to kubevirt resources"
          (lift {S = S} (instancetype_from_nfv_flavour env.json id (some f))) in
      let (objects, converted, rest) = bind-eq-ok convert (create_objects env id) s id' h in
      let (same, w) =
        created-Written id objects.0 objects.1 s id'
          (sym (ap (λ (r : Result Identifier × S). r.0) rest) ∙ h) in
      (
        same,
        record {
          inst_type = objects.0;
          pref = objects.1;
          converted =
              context-eq-ok "convert flavour to kubevirt resources"
                (lift {S = S} (instancetype_from_nfv_flavour env.json id (some f))) s objects
                converted;
          written =
              subst (λ t. Written objects.0 objects.1 s t)
                (sym (ap (λ (r : Result Identifier × S). r.1) rest)) w;
        },
      )

  -- Over an API that meets the documented laws, and with ids drawn without a write, a flavour that
  -- is created is converted, and its instance type and its preference stand in the store with
  -- their labels, annotations and specs, under their names in the namespace of kube-vim; no other
  -- object has changed.
  pub create_flavour-CreatedFlavour :
      (f : VirtualComputeFlavour) (s : S) (id : Identifier)
      → IsQuiet
      → (create_flavour env (some f) s).0 ≡ ok id
      → CreatedFlavour f id s (create_flavour env (some f) s).1
  unfolding create_flavour
  create_flavour-CreatedFlavour f s id quiet h =
      let (used, first, rest) =
        bind-eq-ok (flavour_id_or_new env f.flavour_id) (create_flavour_as env f) s id h in
      let after_id = (flavour_id_or_new env f.flavour_id s).1 in
      let (same, c) =
        created_as f used after_id id (sym (ap (λ (r : Result Identifier × S). r.0) rest) ∙ h) in
      subst (λ used'. CreatedFlavour f used' s (create_flavour env (some f) s).1) same
        (record {
          inst_type = c.inst_type;
          pref = c.pref;
          converted = c.converted;
          written =
              Written-from c.inst_type c.pref s after_id _
                (λ j other. id_or_new-keeps f.flavour_id s j other quiet)
                (subst (λ t. Written c.inst_type c.pref after_id t)
                  (sym (ap (λ (r : Result Identifier × S). r.1) rest)) c.written);
        })

  -- The object that the store holds is the one that was written.
  stored-made :
      {k : Kind} (t : S) (key key' : ObjectKey) (made o : Object k)
      → key ≡ key'
      → l.stored t k key ≡ some made
      → l.stored t k key' ≡ some o
      → made ≡ o
  stored-made {k} t key key' made o same first second =
      some_injective (sym first ∙ ap (λ x. l.stored t k x) same ∙ second)

  instancetype_key-written :
      (o : Object Kind.instancetype) (id : Identifier)
      → o.meta.name ≡ flavour_name_from_id id
      → key_of (in_namespace env.namespace o).meta ≡ instancetype_key id
  unfolding key_of
  instancetype_key-written o id named =
      ap (λ name. record { namespace = env.namespace; name = name }) named

  preference_key-written :
      (o : Object Kind.preference) (id : Identifier)
      → o.meta.name ≡ flavour_preference_name_from_id id
      → key_of (in_namespace env.namespace o).meta ≡ preference_key id
  unfolding key_of
  preference_key-written o id named =
      ap (λ name. record { namespace = env.namespace; name = name }) named

  -- Over an API that meets the documented laws, a JSON library that reads back what it wrote, and
  -- ids drawn without a write: the instance type and the preference that a created flavour is
  -- stored as, once the API has filled them in, are shown as a flavour with the id, the CPU count,
  -- the memory and the storage of the request, unless the metadata of the request takes the name
  -- of the volumes annotation.
  pub create_flavour-shown :
      (f : VirtualComputeFlavour) (s : S) (id : Identifier) (o : Object Kind.instancetype)
      (p : Object Kind.preference)
      → IsQuiet
      → ReadsBack env.json
      → KeepsVolumes f.metadata
      → (create_flavour env (some f) s).0 ≡ ok id
      → l.stored (create_flavour env (some f) s).1 Kind.instancetype (instancetype_key id) ≡ some o
      → l.stored (create_flavour env (some f) s).1 Kind.preference (preference_key id) ≡ some p
      → is_object_instantiated o.meta ≡ true
      → is_object_instantiated p.meta ≡ true
      → (shown : VirtualComputeFlavour) × (nfv_flavour_from_instancetype env.names env.json id
            (some o)
            (some p)
          ≡ ok shown)
        × ShowsFlavour id f shown
  create_flavour-shown f s id o p quiet reads keeps done stored stored_pref filled filled_pref =
      let c = create_flavour-CreatedFlavour f s id quiet done in
      let b = instancetype-BuiltFrom env.json id f c.inst_type c.pref c.converted in
      let t = (create_flavour env (some f) s).1 in
      let same =
        stored-made t _ (instancetype_key id) c.written.made o
          (instancetype_key-written c.inst_type id b.name) c.written.stored stored in
      let same_pref =
        stored-made t _ (preference_key id) c.written.made_pref p
          (preference_key-written c.pref id b.preference_name) c.written.stored_pref stored_pref in
      flavour-round_trip env.names env.json id f c.inst_type o c.pref p reads keeps c.converted
        (subst (λ x. StoredAs c.inst_type x) same
          (record {
            instantiated = ap (λ x. is_object_instantiated x.meta) same ∙ filled;
            labels = c.written.labels;
            annotations = c.written.annotations;
            spec = c.written.spec;
          }))
        (subst (λ x. StoredAs c.pref x) same_pref
          (record {
            instantiated = ap (λ x. is_object_instantiated x.meta) same_pref ∙ filled_pref;
            labels = c.written.pref_labels;
            annotations = c.written.pref_annotations;
            spec = c.written.pref_spec;
          }))

  -- Over an API that meets the documented laws, where the instance type of a flavour is created
  -- and its preference is refused, the creation returns the refusal, and the instance type stays.
  pub create_objects-left :
      (id : Identifier) (inst_type : Object Kind.instancetype) (pref : Object Kind.preference)
      (s : S) (made : Object Kind.instancetype) (e : Error)
      → (env.client.create Kind.instancetype (sent id inst_type pref s) s).0 ≡ answer made
      → (env.client.create Kind.preference
          (sent_pref id inst_type pref s)
          (with_instancetype id inst_type pref s)).0
        ≡ refuse e
      → ((create_objects env id (inst_type, pref) s).0
          ≡ err (wrap "create VirtualMachinePreference '%s' for flavour '%s'" e))
        × (l.stored
              (create_objects env id (inst_type, pref) s).1
              Kind.instancetype
              (key_of (in_namespace env.namespace inst_type).meta)
            ≡ some made)
  create_objects-left id inst_type pref s made e first second = (
    rw (first, second) refl,
    rw (first, second)
        (l.create_refused Kind.preference _ (with_instancetype id inst_type pref s) e
            Kind.instancetype _ second
          ∙ l.create_stores Kind.instancetype _ s made first),
  )
