-- ===== src/Admin/PostEffects.antt =====
-- RemovePost and RestorePost of internal/db/posts.go: what they have done once they succeed.
use waterloo_star_backend.Common.{
  ℕ, ◌≡◌, refl, sym, ap, subst, ◌∙◌, Bool, true, false, none, some, ◌∷◌, is_none,
}
use waterloo_star_backend.Common.Text.{Text, trim_space, is_empty}
use waterloo_star_backend.Store.Table.{lookup}
use waterloo_star_backend.Store.Rows.{
  Post, AdminAction, ActionName, Subject, subject_user, subject_listing, subject_request, Db,
}
use waterloo_star_backend.Store.Conn.{Conn, ok, throw, TxRunner, IsTransactional}
use waterloo_star_backend.Admin.Audit.{audited}
use waterloo_star_backend.Admin.Ledger.{row_for, Audits, audited-Audits}
use waterloo_star_backend.Admin.Posts.{
  ops_for, post_action, remove_detail, remove_change, remove_post, restore_detail, restore_change,
  restore_reason, restore_post,
}
use waterloo_star_backend.Admin.Takedown.{
  posts, write_post, removed_post, restored_post, table_ops, table_subject, remove_change-eq-ok,
  restore_change-eq-ok,
}
use waterloo_star_backend.Admin.Effects.{with_row, written-lookup}

-- What a takedown of a post has done.
abbrev pub TakenDown : Subject → ℕ → ℕ → Text → Conn → AdminAction → Conn → Type 0
TakenDown s actor id reason c logged c' =
    (p : Post) × (lookup id (posts s c.db) ≡ some p)
    × (p.removed_at ≡ none)
    × (c'.db
        ≡ with_row logged (write_post s id (removed_post actor (trim_space reason) c.now p) c.db))
    × (logged
        ≡ row_for (post_action actor ActionName.remove_post s id reason) (remove_detail p) c.now)
    × (is_empty (trim_space reason) ≡ false)

-- What a restore of a post has done.
abbrev pub PutBack : Subject → ℕ → ℕ → Text → Conn → AdminAction → Conn → Type 0
PutBack s actor id reason c logged c' =
    (p : Post) × (lookup id (posts s c.db) ≡ some p)
    × (is_none p.removed_at ≡ false)
    × (c'.db ≡ with_row logged (write_post s id (restored_post c.now p) c.db))
    × (logged
        ≡ row_for (post_action actor ActionName.restore_post s id (restore_reason reason))
            (restore_detail p) c.now)

module _ (tx : TxRunner) (actor id : ℕ) (reason : Text) where
  remove_post-audited :
      (b : Bool)
      → remove_post tx actor (table_subject b) id reason
        ≡ audited tx
            (post_action actor ActionName.remove_post (table_subject b) id reason)
            (remove_change (table_ops b) actor id reason)
  unfolding remove_post ops_for
  remove_post-audited true = refl
  remove_post-audited false = refl

  restore_post-audited :
      (b : Bool)
      → restore_post tx actor (table_subject b) id reason
        ≡ audited tx
            (post_action actor ActionName.restore_post (table_subject b) id (restore_reason reason))
            (restore_change (table_ops b) id)
  unfolding restore_post ops_for
  restore_post-audited true = refl
  restore_post-audited false = refl

  module _ (t : IsTransactional tx) (c : Conn) {x : Unit {0}} {logged : AdminAction}
      {c' : Conn} where
    remove_table-TakenDown :
        (b : Bool)
        → remove_post tx actor (table_subject b) id reason c ≡ (ok (x, logged), c')
        → TakenDown (table_subject b) actor id reason c logged c'
    remove_table-TakenDown b h =
        let a = post_action actor ActionName.remove_post (table_subject b) id reason in
        let change = remove_change (table_ops b) actor id reason in
        let (detail, d, changed, given, row, wrote) =
          subst (Audits a c (change c)) (sym (ap (λ f. f c) (remove_post-audited b)) ∙ h)
            (audited-Audits tx t a change c) in
        let (p, present, visible, said, left, at) =
          remove_change-eq-ok actor id reason b c changed in
        (p, present, visible, wrote ∙ ap (with_row logged) left, row ∙ cc, given)

    restore_table-PutBack :
        (b : Bool)
        → restore_post tx actor (table_subject b) id reason c ≡ (ok (x, logged), c')
        → PutBack (table_subject b) actor id reason c logged c'
    restore_table-PutBack b h =
        let a =
          post_action actor ActionName.restore_post (table_subject b) id (restore_reason reason) in
        let change = restore_change (table_ops b) id in
        let (detail, d, changed, given, row, wrote) =
          subst (Audits a c (change c)) (sym (ap (λ f. f c) (restore_post-audited b)) ∙ h)
            (audited-Audits tx t a change c) in
        let (p, present, hidden, said, left, at) = restore_change-eq-ok id b c changed in
        (p, present, hidden, wrote ∙ ap (with_row logged) left, row ∙ cc)

    pub remove_post-TakenDown :
        (s : Subject)
        → remove_post tx actor s id reason c ≡ (ok (x, logged), c')
        → TakenDown s actor id reason c logged c'
    unfolding remove_post ops_for throw
    remove_post-TakenDown subject_listing h = remove_table-TakenDown true h
    remove_post-TakenDown subject_request h = remove_table-TakenDown false h
    remove_post-TakenDown subject_user h = absurd (cc)

    pub restore_post-PutBack :
        (s : Subject)
        → restore_post tx actor s id reason c ≡ (ok (x, logged), c')
        → PutBack s actor id reason c logged c'
    unfolding restore_post ops_for throw
    restore_post-PutBack subject_listing h = restore_table-PutBack true h
    restore_post-PutBack subject_request h = restore_table-PutBack false h
    restore_post-PutBack subject_user h = absurd (cc)

lookup-write_post :
    (s : Subject) (id : ℕ) (a b : Post) (logged : AdminAction) (d : Db)
    → lookup id (posts s d) ≡ some b
    → lookup id (posts s (with_row logged (write_post s id a d))) ≡ some a
unfolding lookup
lookup-write_post subject_listing id a b logged d h = written-lookup id a b d.listings h
lookup-write_post subject_request id a b logged d h = written-lookup id a b d.requests h
lookup-write_post subject_user id a b logged d h = absurd (cc)

pub actions-write_post :
    (s : Subject) (id : ℕ) (a : Post) (d : Db)
    → (write_post s id a d).admin_actions ≡ d.admin_actions
actions-write_post subject_listing id a d = refl
actions-write_post subject_request id a d = refl
actions-write_post subject_user id a d = refl

-- What a takedown and its end, at a time, have done together.
abbrev pub Undone : Subject → ℕ → Post → ℕ → Conn → AdminAction → AdminAction → Conn → Type 0
Undone s id before time c logged logged' c'' =
    (lookup id (posts s c''.db) ≡ some (record before { updated_at = time }))
    × (c''.db.admin_actions ≡ logged' ∷ logged ∷ c.db.admin_actions)

module _ (tx : TxRunner) (t : IsTransactional tx) (s : Subject) (id : ℕ) where
  -- Restoring a post that was taken down, at any later time and by whomever, with nothing written in
  -- between, puts every column of the row back as it was before the takedown, its owner and its
  -- status included, but `updated_at`, which is the time of the restore, if that row kept no trace
  -- of an earlier takedown. The ledger has the two rows on top.
  pub restore_post-remove_post :
      (actor actor' : ℕ) (reason reason' : Text) (c : Conn) (before : Post) {x y : Unit {0}}
      {logged logged' : AdminAction} {c' c'' : Conn} (later : Conn)
      → lookup id (posts s c.db) ≡ some before
      → before.removed_by ≡ none
      → before.removed_reason ≡ none
      → remove_post tx actor s id reason c ≡ (ok (x, logged), c')
      → later.db ≡ c'.db
      → restore_post tx actor' s id reason' later ≡ (ok (y, logged'), c'')
      → Undone s id before later.now c logged logged' c''
  restore_post-remove_post actor actor' reason reason' c before {x} {y} {logged} {logged'} {c'}
        {c''} later is by why h same_db k =
      let (p, present, visible, all, row, given) =
        remove_post-TakenDown tx actor id reason t c s h in
      let (q, present', hidden, all', row') =
        restore_post-PutBack tx actor' id reason' t later s k in
      let kept : p ≡ before = cc in
      let taken = removed_post actor (trim_space reason) c.now p in
      let there : lookup id (posts s later.db) ≡ some taken =
        ap (λ d. lookup id (posts s d)) same_db
        ∙ ap (λ d. lookup id (posts s d)) all
        ∙ lookup-write_post s id taken p logged c.db present in
      let same : q ≡ taken = cc in
      let undone : restored_post later.now q ≡ record before { updated_at = later.now } =
        ap (restored_post later.now) same
        ∙ ap (λ x. restored_post later.now (removed_post actor (trim_space reason) c.now x)) kept
        ∙ (λ i. record before {
          removed_at = sym (ap (λ (x : Post). x.removed_at) (sym kept) ∙ visible) i;
          removed_by = sym by i;
          removed_reason = sym why i;
          updated_at = later.now;
        }) in
      (
        ap (λ d. lookup id (posts s d)) all'
            ∙ lookup-write_post s id (restored_post later.now q) q logged' later.db present'
            ∙ ap some undone,
        ap (λ d. d.admin_actions) all'
            ∙ ap (λ l. logged' ∷ l)
                (actions-write_post s id (restored_post later.now q) later.db
                  ∙ ap (λ d. d.admin_actions) (same_db ∙ all)
                  ∙ ap (λ l. logged ∷ l) (actions-write_post s id taken c.db)),
      )
