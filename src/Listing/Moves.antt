-- ===== src/Listing/Moves.antt =====
-- The owner's calls: each moves a status along the lifecycle or does nothing, and what that keeps
-- over any sequence of calls by anybody.
use waterloo_star_backend.Common.{
  ℕ, ◌≡◌, refl, sym, ap, subst, ◌∙◌, ◌⊎◌, inl, inr, true, false, Option, none, some, arith,
  Bool-cases,
}
use waterloo_star_backend.Common.Text.{Text, text_eq}
use waterloo_star_backend.Store.Table.{lookup, update}
use waterloo_star_backend.Store.Rows.{Post, Db}
use waterloo_star_backend.Store.Conn.{Conn, Result, ok, err, ◌>>=◌, pure}
use waterloo_star_backend.Handlers.Replies.{Principal}
use waterloo_star_backend.Handlers.Reads.{
  Reads, pure-Reads, reads_rules, seq-Reads, get_user_by_id-Reads, read_others-Reads,
}
use waterloo_star_backend.Listing.Validate.{archived}
use waterloo_star_backend.Listing.Status.{
  Kind, table_of, put_table, with_status, set_status, Refusal, owned, Reply, post_response,
  allowed_transitions, contains_text, move, set_post_status, archive, delete_post, refused_owner,
}
use waterloo_star_backend.Listing.Lifecycle.{
  Wrote, set_status-Wrote, is_move, Owns, Resolved, owned-Resolved,
}

-- What an owner's call may have done: nothing, or a move of the status of a post of the caller
-- that is not taken down.
abbrev pub Moved : Kind → Option Principal → ℕ → Conn → Db → Type 0
Moved kind asked id c d =
    (d ≡ c.db)
    ⊎ ((p : Post) × (want : Text) × Owns kind asked id c p
        × (is_move p.status want ≡ true)
        × (d ≡ put_table kind (update id (with_status want c.now p) (table_of kind c.db)) c.db))

post_response-Reads : (p : Post) → Reads (post_response p)
unfolding post_response
post_response-Reads p = search (reads_rules, get_user_by_id-Reads, read_others-Reads) depth 12

archive-is_move : (s : Text) → text_eq s archived ≡ false → is_move s archived ≡ true
unfolding text_eq
archive-is_move s h = elim (Bool-cases (contains_text (allowed_transitions s) archived)) [
  | inl listed ↦ rw listed refl
  | inr unlisted ↦ rw (unlisted, h) refl
]

module _ (kind : Kind) (asked : Option Principal) (id : ℕ) where
  Wrote-Moved :
      (want : Text) (p : Post) (c d : Conn) (e : Db)
      → Owns kind asked id c p
      → is_move p.status want ≡ true
      → d.db ≡ c.db
      → d.now ≡ c.now
      → Wrote kind id want p d e
      → Moved kind asked id c e
  Wrote-Moved want p c d e owns moves same at (inl kept) = inl (kept ∙ same)
  Wrote-Moved want p c d e owns moves same at (inr wrote) = inr (
    p,
    want,
    owns,
    moves,
    wrote
        ∙ ap (λ x. put_table kind (update id (with_status want d.now p) (table_of kind x)) x) same
        ∙ ap (λ now. put_table kind (update id (with_status want now p) (table_of kind c.db)) c.db)
            at,
  )

  move-Moved :
      (want : Text) (p : Post) (c d : Conn)
      → Owns kind asked id c p
      → d.db ≡ c.db
      → d.now ≡ c.now
      → Moved kind asked id c (move kind id p want d).1.db
  unfolding move pure
  move-Moved want p c d (q, who, there, mine, visible) same at =
      elim (Bool-cases (text_eq want p.status)) [
        | inl already ↦ rw already (inl ((post_response-Reads p).keeps d ∙ same))
        | inr differs ↦ elim (Bool-cases (contains_text (allowed_transitions p.status) want)) [
          | inr unlisted ↦ rw (differs, unlisted) (inl same)
          | inl listed ↦
              rw (differs, listed)
                (Wrote-Moved want p c d _ (q, who, there, mine, visible) (ground arith) same at
                  (subst (λ x. Wrote kind id want p d x)
                    (sym (seq-Reads (set_status kind id want) post_response d post_response-Reads))
                    (set_status-Wrote kind id want p d
                      (ap (λ x. lookup id (table_of kind x)) same ∙ there))))
        ]
      ]

  archive-Moved :
      (p : Post) (c d : Conn)
      → Owns kind asked id c p
      → d.db ≡ c.db
      → d.now ≡ c.now
      → Moved kind asked id c (archive kind id p d).1.db
  unfolding archive pure
  archive-Moved p c d (q, who, there, mine, visible) same at =
      elim (Bool-cases (text_eq p.status archived)) [
        | inl already ↦ rw already (inl same)
        | inr live ↦ rw live (
            Wrote-Moved archived p c d _ (q, who, there, mine, visible)
              (archive-is_move p.status live) same at
              (subst (λ x. Wrote kind id archived p d x)
                (sym (
                  seq-Reads (set_status kind id archived) (λ _. pure Reply.deleted) d
                    (λ _. pure-Reads _)))
                (set_status-Wrote kind id archived p d
                  (ap (λ x. lookup id (table_of kind x)) same ∙ there))))
      ]

  -- A change of status asked for by anybody, on any post, with any statement failing: nothing
  -- has changed, or the post is the caller's and not taken down, and its status has moved along
  -- the lifecycle, with the time of its first publication.
  pub set_post_status-Moved :
      (body : Option Text) (c : Conn)
      → Moved kind asked id c (set_post_status kind asked id body c).1.db
  unfolding set_post_status ◌>>=◌ pure
  set_post_status-Moved body c = go (owned kind asked id c) (owned-Resolved kind asked id c) body
    where
      go :
          (r : Result (Refusal ⊎ Post) × Conn)
          → Resolved kind asked id c r
          → (body : Option Text)
          → Moved kind asked id c
              (◌>>=◌
                (λ _. r)
                (λ x. elim x [
                  | inl refusal ↦ pure (refused_owner refusal)
                  | inr existing ↦ elim body [
                    | none ↦ pure Reply.status_required
                    | some want ↦ move kind id existing want
                  ]
                ])
                c).1.db
      go (err e, d) (same, at, owns) body = inl same
      go (ok (inl refusal), d) (same, at, owns) body = inl same
      go (ok (inr p), d) (same, at, owns) none = inl same
      go (ok (inr p), d) (same, at, owns) (some want) = move-Moved want p c d (owns p refl) same at

  -- A deletion, the same: it archives, or does nothing.
  pub delete_post-Moved : (c : Conn) → Moved kind asked id c (delete_post kind asked id c).1.db
  unfolding delete_post ◌>>=◌ pure
  delete_post-Moved c = go (owned kind asked id c) (owned-Resolved kind asked id c)
    where
      go :
          (r : Result (Refusal ⊎ Post) × Conn)
          → Resolved kind asked id c r
          → Moved kind asked id c
              (◌>>=◌
                (λ _. r)
                (λ x. elim x [
                  | inl refusal ↦ pure (refused_owner refusal)
                  | inr existing ↦ archive kind id existing
                ])
                c).1.db
      go (err e, d) (same, at, owns) = inl same
      go (ok (inl refusal), d) (same, at, owns) = inl same
      go (ok (inr p), d) (same, at, owns) = archive-Moved p c d (owns p refl) same at
