-- ===== src/RateLimit/Keeps.antt =====
-- What a call does to the map: its own key, the other keys, and the key that it may evict.
use waterloo_star_backend.Common.{
  ◌<◌, ◌≡◌, refl, sym, ap, ◌∙◌, ◌≢◌, ◌⊎◌, inl, inr, Option, none, some, arith, length, is_some,
}
use waterloo_star_backend.RateLimit.Assoc.{
  lookup, delete, assign, back, contains, length-delete, lookup-delete_ne, lookup-delete_self,
  lookup-assign_ne, lookup-assign_self, length-assign, assign-IsMap,
}
use waterloo_star_backend.RateLimit.Bucket.{Bucket}
use waterloo_star_backend.RateLimit.Limiter.{Limiter, drop_locked, evict_locked, store}
use waterloo_star_backend.RateLimit.Bounded.{drop_locked-IsSound, back_present}
use waterloo_star_backend.RateLimit.Fetch.{
  IsValid, push, push-IsSound, bring_forward, bring_forward-IsSound, admit,
}

module _ {K T : Type 0} (dec : Discrete K) where
  -- `q` was the least recently used of a full map, and a new key took its place.
  abbrev pub IsEvicted : K → K → Limiter K T → Limiter K T → Type 0
  IsEvicted key q l l' =
      (length l.buckets ≡ l.max_keys)
      × (lookup dec key l.buckets ≡ none)
      × (back l.recency ≡ some q)
      × (lookup dec q l'.buckets ≡ none)

  -- What `fetch` and `consult` promise of the map.
  pub record Keeps (key : K) (l l' : Limiter K T) (o : Option (Bucket T)) : Type 0 where
    pub valid : IsValid dec l'
    pub same_max : l'.max_keys ≡ l.max_keys
    pub own : lookup dec key l'.buckets ≡ o
    pub others :
        (q : K)
        → q ≢ key
        → (lookup dec q l'.buckets ≡ lookup dec q l.buckets) ⊎ IsEvicted key q l l'

  module _ (key : K) (b : Bucket T) (l : Limiter K T) (v : IsValid dec l) where
    pub bring_forward-Keeps :
        {b₀ : Bucket T}
        → lookup dec key l.buckets ≡ some b₀
        → Keeps key l (bring_forward dec key b l) (some b)
    bring_forward-Keeps {b₀} h = record {
      valid = record {
        sound = bring_forward-IsSound dec key b l v.sound h;
        room = v.room;
        bounded = rw (length-assign dec key b l.buckets) v.bounded;
      };
      same_max = refl;
      own = lookup-assign_self dec key b b₀ l.buckets h;
      others = λ q e. inl (lookup-assign_ne dec key q b l.buckets e);
    }

    push-Keeps :
        lookup dec key l.buckets ≡ none
        → length l.buckets < l.max_keys
        → Keeps key l (push dec key b l) (some b)
    push-Keeps h more = record {
      valid = record {
        sound = push-IsSound dec key b l v.sound h;
        room = v.room;
        bounded = omega arith;
      };
      same_max = refl;
      own = unfold lookup in ground arith;
      others = λ q e. inl (unfold lookup in ground arith);
    }

    replace-Keeps :
        (old : K)
        → lookup dec key l.buckets ≡ none
        → length l.buckets ≡ l.max_keys
        → back l.recency ≡ some old
        → old ≢ key
        → Keeps key l (drop_locked dec old (push dec key b l)) (some b)
    unfolding drop_locked
    replace-Keeps old h at_ceiling last away =
        let m = push dec key b l in
        let pushed = push-IsSound dec key b l v.sound h in
        let (w, held) = back_present dec old l v.sound last in
        let held' : lookup dec old m.buckets ≡ some w = unfold lookup in ground (arith, sym held) in
        let smaller = length-delete dec old w m.buckets held' in
        record {
          valid = record {
            sound = drop_locked-IsSound dec old m pushed w held';
            room = v.room;
            bounded = omega (arith, smaller);
          };
          same_max = refl;
          own = unfold lookup delete in ground arith;
          others = λ q e. elim (dec q old) [
            | yes same ↦ inr (
              at_ceiling,
              h,
              last ∙ ap some (sym same),
              rw same (lookup-delete_self dec old m.buckets pushed.one_each),
            )
            | no other ↦
                inl (
                  lookup-delete_ne dec old q m.buckets other ∙ (unfold lookup in ground (arith, e)))
          ];
        }

    pub evict_locked-Keeps :
        lookup dec key l.buckets ≡ none → Keeps key l (evict_locked dec (push dec key b l)) (some b)
    evict_locked-Keeps h = elim (admit dec key b l v.sound v.room v.bounded h) [
      | inl (more, e) ↦ rw e (push-Keeps h more)
      | inr (old, at_ceiling, last, away, e) ↦ rw e (replace-Keeps old h at_ceiling last away)
    ]

  module _ (key : K) {b : Bucket T} (l l' : Limiter K T) (k : Keeps key l l' (some b)) where
    store-others :
        (b' : Bucket T) (q : K)
        → q ≢ key
        → (lookup dec q (store dec key b' l').buckets ≡ lookup dec q l.buckets)
          ⊎ IsEvicted key q l (store dec key b' l')
    unfolding store
    store-others b' q e = rw (lookup-assign_ne dec key q b' l'.buckets e) (k.others q e)

    pub store-Keeps : (b' : Bucket T) → Keeps key l (store dec key b' l') (some b')
    unfolding store
    store-Keeps b' = record {
      valid = record {
        sound = record {
          one_each = assign-IsMap dec key b' l'.buckets sound.one_each;
          distinct = sound.distinct;
          agree = λ q. assign_agree q;
          same_size = length-assign dec key b' l'.buckets ∙ sound.same_size;
        };
        room = k.valid.room;
        bounded = rw (length-assign dec key b' l'.buckets) k.valid.bounded;
      };
      same_max = k.same_max;
      own = lookup-assign_self dec key b' b l'.buckets k.own;
      others = store-others b';
    }
      where
        open k.valid use {sound}

        assign_agree :
            (q : K)
            → contains dec q l'.recency ≡ is_some (lookup dec q (assign dec key b' l'.buckets))
        assign_agree q = ground (
          arith,
          sound.agree q,
          k.own,
          lookup-assign_ne dec key q b' l'.buckets,
          lookup-assign_self dec key b' b l'.buckets k.own,
        )

    pub drop_locked-Keeps : Keeps key l (drop_locked dec key l') none
    drop_locked-Keeps = record {
      valid = record {
        sound = drop_locked-IsSound dec key l' k.valid.sound b k.own;
        room = unfold drop_locked in k.valid.room;
        bounded =
            unfold drop_locked in
            omega (arith, length-delete dec key b l'.buckets k.own, k.valid.bounded);
      };
      same_max = unfold drop_locked in k.same_max;
      own = unfold drop_locked in lookup-delete_self dec key l'.buckets k.valid.sound.one_each;
      others =
          λ q e. unfold drop_locked in rw (lookup-delete_ne dec key q l'.buckets e) (k.others q e);
    }
