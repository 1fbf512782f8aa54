-- ===== src/Stores/WorldModels.antt =====
-- `InMemoryWorldModelRepository` of src/sanuvia/adapters/persistence/in_memory.py: the versions of a model, by
-- space, subject and id, and the pointer to the current one. `F` is the type of the program's floats.
use sanuvia_reasoning_engine.Prelude.{
  String, ◌≡◌, ◌≢◌, sym, ap, ◌∙◌, inl, inr, false, Option, none, some, arith,
}
use sanuvia_reasoning_engine.Prelude.Tests.{
  if◌then◌else◌, string_eq, pair_eq, Bool-cases, Option-cases,
}
use sanuvia_reasoning_engine.Prelude.Dict.{
  Dict, get, has, put, get-put_self, get-put_ne, get-put_new,
}
use sanuvia_reasoning_engine.Domain.Errors.{Result, ok, err, invariant_violation, ok-injective}
use sanuvia_reasoning_engine.Domain.WorldModel.{WorldModel, CurrentModelSnapshot}

pub record WorldModelStore (F : Type 0) : Type 0 where
  pub versions : Dict (String × (String × String)) (WorldModel F)
  pub pointers : Dict (String × String) CurrentModelSnapshot

abbrev version_key : {F : Type 0} → WorldModel F → String × (String × String)
version_key m = (m.space_id, (m.subject_id, m.model_version_id))

abbrev pointer_key : CurrentModelSnapshot → String × String
pointer_key p = (p.space_id, p.subject_id)

abbrev pointed_key : CurrentModelSnapshot → String × (String × String)
pointed_key p = (p.space_id, (p.subject_id, p.model_version_id))

abbrev pair : String → String → String × String
pair a b = (a, b)

module _ {F : Type 0} where
  unfoldable pub append_model : WorldModelStore F → WorldModel F → Result (WorldModelStore F)
  append_model s m =
      if has s.versions (version_key m)
      then err invariant_violation
      else ok (record s { versions = put s.versions (version_key m) m })

  unfoldable pub set_current_pointer : WorldModelStore F → CurrentModelSnapshot → WorldModelStore F
  set_current_pointer s p = record s { pointers = put s.pointers (pointer_key p) p }

  abbrev get_version : WorldModelStore F → String → String → String → Option (WorldModel F)
  get_version s subject version space = get s.versions (space, (subject, version))

  abbrev get_current_pointer : WorldModelStore F → String → String → Option CurrentModelSnapshot
  get_current_pointer s subject space = get s.pointers (space, subject)

  pub get_current_model : WorldModelStore F → String → String → Option (WorldModel F)
  get_current_model s subject space = elim (get s.pointers (space, subject)) [
    | none ↦ none
    | some p ↦ get s.versions (space, (subject, p.model_version_id))
  ]

  current-pointed :
      (s : WorldModelStore F) (subject space : String) (p : CurrentModelSnapshot)
      → get s.pointers (space, subject) ≡ some p
      → get_current_model s subject space ≡ get s.versions (space, (subject, p.model_version_id))
  unfolding get_current_model
  current-pointed s subject space p h = ground arith

  current-unpointed :
      (s : WorldModelStore F) (subject space : String)
      → get s.pointers (space, subject) ≡ none
      → get_current_model s subject space ≡ none
  unfolding get_current_model
  current-unpointed s subject space h = ground arith

  append_model-ok :
      (s s' : WorldModelStore F) (m : WorldModel F)
      → append_model s m ≡ ok s'
      → (has s.versions (version_key m) ≡ false)
        × (record s { versions = put s.versions (version_key m) m } ≡ s')
  unfolding append_model
  append_model-ok s s' m h = elim (Bool-cases (has s.versions (version_key m))) [
    | inl t ↦ cc (rw t at h)
    | inr t ↦ (t, ok-injective (rw t at h))
  ]

  -- A model that is appended and then pointed to is the current model of the pointer's subject and space, no
  -- earlier version is changed, and the current model of another subject or space, if there is one, is the
  -- same as before.
  append_model-current :
      (s s' : WorldModelStore F) (m : WorldModel F) (p : CurrentModelSnapshot)
      → append_model s m ≡ ok s'
      → pointed_key p ≡ version_key m
      → (get_current_model (set_current_pointer s' p) p.subject_id p.space_id ≡ some m)
        × ((key : String × (String × String)) (old : WorldModel F)
            → get s.versions key ≡ some old
            → get (set_current_pointer s' p).versions key ≡ some old)
        × ((subject space : String) (old : WorldModel F)
            → pointer_key p ≢ pair space subject
            → get_current_model s subject space ≡ some old
            → get_current_model (set_current_pointer s' p) subject space ≡ some old)
  unfolding set_current_pointer
  append_model-current s s' m p h q =
      let (fresh, e) = append_model-ok s s' m h in
      let versions : s'.versions ≡ put s.versions (version_key m) m =
        ap (λ (w : WorldModelStore F). w.versions) (sym e) in
      let pointers : s'.pointers ≡ s.pointers =
        ap (λ (w : WorldModelStore F). w.pointers) (sym e) in
      let keeps : (key : String × (String × String)) (old : WorldModel F)
          → get s.versions key ≡ some old
          → get s'.versions key ≡ some old =
        λ key old g.
          ap (λ d. get d key) versions ∙ get-put_new s.versions (version_key m) key m fresh g in
      (
        current-pointed (set_current_pointer s' p) p.subject_id p.space_id p
              (get-put_self s'.pointers (pointer_key p) p)
            ∙ ap (λ d. get d (pointed_key p)) versions
            ∙ ap (get (put s.versions (version_key m) m)) q
            ∙ get-put_self s.versions (version_key m) m,
        keeps,
        λ subject space old other g. elim (Option-cases (get s.pointers (space, subject))) [
          | inl n ↦ cc (sym (current-unpointed s subject space n) ∙ g)
          | inr (o, n) ↦
              current-pointed (set_current_pointer s' p) subject space o (
                get-put_ne s'.pointers (pointer_key p) (space, subject) p other
                ∙ ap (λ d. get d (space, subject)) pointers
                ∙ n)
              ∙ keeps (space, (subject, o.model_version_id)) old
                  (sym (current-pointed s subject space o n) ∙ g)
        ],
      )
