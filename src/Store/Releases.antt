-- ===== src/Store/Releases.antt =====
-- A session of harness/store/memory/memory.go passes from one handle to the next.
use agentic.Prelude.{
  ℕ, zero, suc, ◌≡◌, refl, sym, ap, ◌∙◌, inl, inr, String, List, [], ◌∷◌, ◌++◌, none, some, true,
  false, ok, err, Option-cases, lookup, is_some, length, get_elem?, set, arith, length-set,
  lookup-insert, eq_refl, nat_eq,
}
use agentic.Store.{
  Handle, Repository, journal_closed, validate_session_id, check_call, hold, open_session,
  validate_open, remove_key, close,
}

lookup-remove_key :
    {V : Type 0} (key : String) (entries : List (String × V))
    → lookup key (remove_key key entries) ≡ none
unfolding lookup remove_key
lookup-remove_key key [] = refl
lookup-remove_key key ((slot, value) ∷ rest) = ground (arith, lookup-remove_key key rest)

get_elem?-set-append :
    (handles : List Handle) (i : ℕ) (old new next : Handle)
    → get_elem? handles i ≡ some old
    → get_elem? (set handles i new ++ next ∷ []) i ≡ some new
get_elem?-set-append [] i old new next h = cc
get_elem?-set-append (first ∷ handles) zero old new next h = refl
get_elem?-set-append (first ∷ handles) (suc i) old new next h =
    get_elem?-set-append handles i old new next h

get_elem?-last :
    (handles : List Handle) (next : Handle)
    → get_elem? (handles ++ next ∷ []) (length handles) ≡ some next
get_elem?-last [] next = refl
get_elem?-last (first ∷ handles) next = get_elem?-last handles next

nat_eq_self : (n : ℕ) → nat_eq n n ≡ true
nat_eq_self n = ground arith

module _ (repository : Repository) (journal : ℕ) (id : String) where
  -- What a valid handle is.
  held-by :
      validate_open repository journal ≡ ok id
      → (handle : Handle) × (get_elem? repository.handles journal ≡ some handle)
        × (handle.closed ≡ false)
        × (handle.session_id ≡ id)
        × (lookup id repository.open_by ≡ some journal)
  unfolding validate_open
  held-by h = elim (Option-cases (get_elem? repository.handles journal)) [
    | inl e ↦ absurd (ground arith)
    | inr (handle, e) ↦ elim (Option-cases (lookup handle.session_id repository.open_by)) [
      | inl f ↦ absurd (ground arith)
      | inr (holder, f) ↦
          let same : handle.session_id ≡ id = ground arith in
          let own : holder ≡ journal = ground arith in
          (
            handle,
            e,
            ground arith,
            same,
            ap (λ k. lookup k repository.open_by) (sym same) ∙ (f ∙ ap some own),
          )
    ]
  ]

  -- The repository without the handle.
  abbrev released : Handle → Repository
  released handle = record repository {
    handles = set repository.handles journal (record handle { closed = true });
    open_by = remove_key handle.session_id repository.open_by;
  }

  close-released :
      (handle : Handle)
      → get_elem? repository.handles journal ≡ some handle
      → handle.closed ≡ false
      → lookup handle.session_id repository.open_by ≡ some journal
      → close repository journal ≡ released handle
  unfolding close
  close-released handle e awake held = rw (close, e, awake, held, nat_eq_self journal) refl

  released-opens :
      (handle : Handle)
      → handle.session_id ≡ id
      → is_some (lookup id repository.sessions) ≡ true
      → validate_session_id id ≡ none
      → open_session none (released handle) id
        ≡ (hold (released handle) id, ok (length repository.handles))
  unfolding open_session check_call
  released-opens handle same there valid =
      let free : lookup id (remove_key handle.session_id repository.open_by) ≡ none =
        rw same (lookup-remove_key id repository.open_by) in
      rw
        (
          open_session,
          valid,
          there,
          free,
          length-set repository.handles journal (record handle { closed = true }),
        )
        refl

  hold-refuses :
      (handle : Handle)
      → get_elem? repository.handles journal ≡ some handle
      → handle.session_id ≡ id
      → validate_open (hold (released handle) id) journal ≡ err (journal_closed id)
  unfolding validate_open
  hold-refuses handle e same =
      let old =
        get_elem?-set-append repository.handles journal handle (record handle { closed = true })
          (record { session_id = id; closed = false }) e in
      rw (validate_open, old) (ap (λ k. err (journal_closed k)) same)

  hold-admits :
      (handle : Handle)
      → validate_open (hold (released handle) id) (length repository.handles) ≡ ok id
  unfolding validate_open
  hold-admits handle =
      let sized = length-set repository.handles journal (record handle { closed = true }) in
      let new =
        ap (get_elem? (hold (released handle) id).handles) (sym sized)
        ∙ get_elem?-last (set repository.handles journal (record handle { closed = true }))
            (record { session_id = id; closed = false }) in
      let holds : lookup id (hold (released handle) id).open_by ≡ some (length repository.handles) =
        lookup-insert id id (length (released handle).handles) (released handle).open_by
        ∙ rw (eq_refl id, sized) refl in
      rw (validate_open, new, holds, nat_eq_self (length repository.handles)) refl

  -- After a handle that holds a session has been closed, the session can be opened by a new handle,
  -- which holds it then, and the old handle is refused.
  pub open_session-close :
      validate_open repository journal ≡ ok id
      → is_some (lookup id repository.sessions) ≡ true
      → validate_session_id id ≡ none
      → (next : Repository) × (open_session none (close repository journal) id
          ≡ (next, ok (length repository.handles)))
        × (validate_open next journal ≡ err (journal_closed id))
        × (validate_open next (length repository.handles) ≡ ok id)
  open_session-close h there valid =
      let (handle, e, awake, same, held) = held-by h in
      let closes =
        close-released handle e awake (ap (λ k. lookup k repository.open_by) same ∙ held) in
      (
        hold (released handle) id,
        ap (λ x. open_session none x id) closes ∙ released-opens handle same there valid,
        hold-refuses handle e same,
        hold-admits handle,
      )
