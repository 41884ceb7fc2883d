-- ===== src/Auth/OneUse.antt =====
-- A token is used once: a refresh token that is revoked, and the token of a link that is consumed,
-- stay so, and are refused.
use waterloo_star_backend.Common.{
  ℕ, ◌≡◌, refl, Bool, true, false, Option, none, some, arith, is_some, is_none, if◌then◌else◌,
  subst,
}
use waterloo_star_backend.Store.Table.{Table, lookup, update}
use waterloo_star_backend.Store.AtKey.{AtKey, AtKey-insert, AtKey-update, AtKey-update_all}
use waterloo_star_backend.Store.Rows.{Db, RefreshToken, LinkToken}
use waterloo_star_backend.Store.Queries.{revoke_if}
use waterloo_star_backend.Store.Sessions.{
  Link, verification, reset, links, set_links, revoke_at, consume_at, consume_if,
}
use waterloo_star_backend.Auth.Guarded.{Guarded}
use waterloo_star_backend.Auth.Suspended.{is_revoked}

abbrev pub is_consumed : LinkToken → Bool
is_consumed t = is_some t.consumed_at

pub record IsRevoked (hash : ℕ) (d : Db) : Type 0 where
  pub at : AtKey is_revoked hash d.refresh_tokens

pub record IsSpent (l : Link) (hash : ℕ) (d : Db) : Type 0 where
  pub at : AtKey is_consumed hash (links l d)

AtKey-revoke_at :
    (hash k now : ℕ) (t : Table RefreshToken)
    → AtKey is_revoked hash t
    → AtKey is_revoked hash (revoke_at k now t)
unfolding revoke_at
AtKey-revoke_at hash k now t h = go (lookup k t) refl
  where
    go :
        (o : Option RefreshToken)
        → lookup k t ≡ o
        → AtKey is_revoked hash (elim o [
          | none ↦ t
          | some r ↦
              if is_none r.revoked_at then update k (record r { revoked_at = some now }) t else t
        ])
    go none e = h
    go (some r) e = pick (is_none r.revoked_at)
      where
        pick :
            (b : Bool)
            → AtKey is_revoked hash
                (if b then update k (record r { revoked_at = some now }) t else t)
        pick true = AtKey-update is_revoked hash k r _ t h e (λ _. refl)
        pick false = h

AtKey-consume_at :
    (hash k now : ℕ) (t : Table LinkToken)
    → AtKey is_consumed hash t
    → AtKey is_consumed hash (consume_at k now t)
unfolding consume_at
AtKey-consume_at hash k now t h = go (lookup k t) refl
  where
    go :
        (o : Option LinkToken)
        → lookup k t ≡ o
        → AtKey is_consumed hash (elim o [
          | none ↦ t
          | some r ↦
              if is_none r.consumed_at then update k (record r { consumed_at = some now }) t else t
        ])
    go none e = h
    go (some r) e = pick (is_none r.consumed_at)
      where
        pick :
            (b : Bool)
            → AtKey is_consumed hash
                (if b then update k (record r { consumed_at = some now }) t else t)
        pick true = AtKey-update is_consumed hash k r _ t h e (λ _. refl)
        pick false = h

IsRevoked-links :
    (hash : ℕ) (l : Link) (t : Table LinkToken) (d : Db)
    → IsRevoked hash d
    → IsRevoked hash (set_links l t d)
unfolding set_links
IsRevoked-links hash verification t d h = record { at = h.at }
IsRevoked-links hash reset t d h = record { at = h.at }

pub IsRevoked-Guarded : (hash : ℕ) → Guarded (IsRevoked hash) (λ _. Unit {0})
unfolding revoke_if
IsRevoked-Guarded hash = record {
  reads_email = λ q k u d h e n. tt;
  reads_id = λ k u d h e n. tt;
  creates_user = λ k u d h e. record { at = h.at };
  verifies = λ k now u d h e. record { at = h.at };
  rehashes = λ k now u hash d h e. record { at = h.at };
  consumes = λ l hash' now d h. IsRevoked-links hash l _ d h;
  consumes_all = λ l k now d h. IsRevoked-links hash l _ d h;
  creates_link = λ l hash' t d h e. IsRevoked-links hash l _ d h;
  starts = λ k id expires_at d allowed h e. record {
    at = AtKey-insert is_revoked hash k _ d.refresh_tokens h.at e;
  };
  revokes = λ k now d h. record { at = AtKey-revoke_at hash k now d.refresh_tokens h.at };
  evicts = λ k now d h. record {
    at =
        AtKey-update_all is_revoked hash (revoke_if k now) d.refresh_tokens h.at
          (λ a e. ground arith);
  };
}

-- A change of one table of links, as it stands to the other.
IsSpent-set :
    (l l' : Link) (hash : ℕ) (t : Table LinkToken) (d : Db)
    → (AtKey is_consumed hash (links l' d) → AtKey is_consumed hash t)
    → IsSpent l hash d
    → IsSpent l hash (set_links l' t d)
unfolding links set_links
IsSpent-set verification verification hash t d f h = record { at = f h.at }
IsSpent-set verification reset hash t d f h = record { at = h.at }
IsSpent-set reset verification hash t d f h = record { at = h.at }
IsSpent-set reset reset hash t d f h = record { at = f h.at }

-- What leaves both tables of links.
IsSpent-same :
    (l : Link) (hash : ℕ) (d d' : Db)
    → d.email_verification_tokens ≡ d'.email_verification_tokens
    → d.password_reset_tokens ≡ d'.password_reset_tokens
    → IsSpent l hash d
    → IsSpent l hash d'
unfolding links
IsSpent-same verification hash d d' e f h = record { at = subst (AtKey is_consumed hash) e h.at }
IsSpent-same reset hash d d' e f h = record { at = subst (AtKey is_consumed hash) f h.at }

pub IsSpent-Guarded : (l : Link) (hash : ℕ) → Guarded (IsSpent l hash) (λ _. Unit {0})
unfolding consume_if
IsSpent-Guarded l hash = record {
  reads_email = λ q k u d h e n. tt;
  reads_id = λ k u d h e n. tt;
  creates_user = λ k u d h e. IsSpent-same l hash d _ refl refl h;
  verifies = λ k now u d h e. IsSpent-same l hash d _ refl refl h;
  rehashes = λ k now u _ d h e. IsSpent-same l hash d _ refl refl h;
  consumes = λ l' k now d h. IsSpent-set l l' hash _ d (AtKey-consume_at hash k now (links l' d)) h;
  consumes_all = λ l' k now d h.
      IsSpent-set l l' hash _ d
        (λ a.
          AtKey-update_all is_consumed hash (consume_if k now) (links l' d) a (λ a e. ground arith))
        h;
  creates_link = λ l' k t d h e.
      IsSpent-set l l' hash _ d (λ a. AtKey-insert is_consumed hash k t (links l' d) a e) h;
  starts = λ k id expires_at d allowed h e. IsSpent-same l hash d _ refl refl h;
  revokes = λ k now d h. IsSpent-same l hash d _ refl refl h;
  evicts = λ k now d h. IsSpent-same l hash d _ refl refl h;
}
