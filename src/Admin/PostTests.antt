-- ===== src/Admin/PostTests.antt =====
-- A takedown and its end on the small site of Admin/Tests.antt.
use waterloo_star_backend.Common.{◌≡◌, refl, none, some, [], ◌∷◌}
use waterloo_star_backend.Common.Text.{trim_space, is_space}
use waterloo_star_backend.Store.Table.{lookup, update}
use waterloo_star_backend.Store.Rows.{Post, AdminAction, ActionName, subject_listing}
use waterloo_star_backend.Store.Conn.{Conn, ok, ◌>>=◌, pure, no_rows_as, query}
use waterloo_star_backend.Store.Queries.{
  get_listing_for_owner, get_listing_for_owner_sql, remove_listing, remove_listing_sql,
  restore_listing, restore_listing_sql, remove_row, restore_row, write_row, insert_admin_action_sql,
}
use waterloo_star_backend.Admin.Ledger.{row_for}
use waterloo_star_backend.Admin.Posts.{
  post_action, remove_detail, restore_detail, remove_post, restore_post, restore_reason,
}
use waterloo_star_backend.Admin.Takedown.{write_post, removed_post}
use waterloo_star_backend.Admin.Effects.{with_row}
use waterloo_star_backend.Admin.PostEffects.{Undone, restore_post-remove_post}
use waterloo_star_backend.Admin.Tests.{pool_tx, pool_tx-IsTransactional, spam, site, conn}

abbrev room : Post
room = record {
  owner_id = 3;
  status = 100 ∷ 114 ∷ 97 ∷ 102 ∷ 116 ∷ [];
  published_at = none;
  removed_at = none;
  removed_by = none;
  removed_reason = none;
  updated_at = 0;
  address_line = [];
}

abbrev removed : AdminAction
removed =
    row_for (post_action 1 ActionName.remove_post subject_listing 7 spam) (remove_detail room) 500

abbrev hidden : Post
hidden = removed_post 1 (trim_space spam) 500 room

abbrev after_removal : Conn
after_removal = record (conn []) {
  db = with_row removed (write_post subject_listing 7 hidden site);
}

-- A restore without a reason.
abbrev restored : AdminAction
restored =
    row_for (post_action 2 ActionName.restore_post subject_listing 7 (restore_reason []))
      (restore_detail hidden) 700

-- The next connection, later
abbrev day_after : Conn
day_after = record after_removal { now = 700 }

abbrev after_restore : Conn
after_restore = record day_after {
  db =
      with_row restored
        (write_post subject_listing 7 (record room { updated_at = 700 }) after_removal.db);
}

removing_works :
    remove_post pool_tx 1 subject_listing 7 spam (conn []) ≡ (ok (tt, removed), after_removal)
unfolding remove_post get_listing_for_owner get_listing_for_owner_sql remove_listing
    remove_listing_sql remove_row write_row ◌>>=◌ pure no_rows_as query trim_space is_space lookup
    update insert_admin_action_sql
removing_works = refl

restoring_works :
    restore_post pool_tx 2 subject_listing 7 [] day_after ≡ (ok (tt, restored), after_restore)
unfolding restore_post get_listing_for_owner get_listing_for_owner_sql restore_listing
    restore_listing_sql restore_row write_row ◌>>=◌ pure no_rows_as query trim_space is_space lookup
    update insert_admin_action_sql restore_reason
restoring_works = refl

present : lookup 7 site.listings ≡ some room
unfolding lookup
present = refl

restore_post-remove_post_example :
    Undone subject_listing 7 room 700 (conn []) removed restored after_restore
restore_post-remove_post_example =
    restore_post-remove_post pool_tx pool_tx-IsTransactional subject_listing 7 1 2 spam [] (conn [])
      room day_after present refl refl removing_works refl restoring_works
