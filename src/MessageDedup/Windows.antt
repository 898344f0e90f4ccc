-- ===== src/MessageDedup/Windows.antt =====
-- The windows of is_content_duplicate and is_reply_duplicate in src/modules/messages/dedup.py: how
-- long an answer counts, for the two formats of time that the code compares.
use realxianyu.Base.{
  ℕ, ◌+◌, ◌-◌, ◌/◌, ◌≡◌, Bool, true, false, ◌&&◌, List, [], ◌∷◌, ◌++◌, String, leb, eq_refl,
  if◌then◌else◌, Bool-cases, arith, refl, ◌∙◌, inl, inr, ap,
}
use realxianyu.Base.Table.{update_where, delete_where, exists_where, has_key}
use realxianyu.Base.Table.Exists.{
  exists_where-append, exists_where-one, exists_where-delete_where, exists_where-update_where,
  exists_where_both,
}
use realxianyu.MessageDedup.{
  MessageDedup, content_key, reply_key, content_hash, reply_hash, normalize, Texts, isoformat,
  datetime, later, day_seconds, is_content_duplicate, is_reply_duplicate, mark_replied,
  mark_reply_sent,
}

-- An answer that was written at `t` is later than the limit `u` from the day of the limit on.
pub later-isoformat-datetime :
    (t u : ℕ) → later (isoformat t) (datetime u) ≡ leb (u / day_seconds) (t / day_seconds)
unfolding later isoformat datetime
later-isoformat-datetime t u = ground arith

-- a table with a key, after a row was added whose key was absent
added {ℓ} :
    {A : Type ℓ} (q p : A → Bool) (y : A) (b : Bool) (xs : List A)
    → exists_where q xs ≡ false
    → q y ≡ true
    → p y ≡ b
    → exists_where (λ x. q x && p x) (xs ++ y ∷ []) ≡ b
added q p y b xs h qy py =
    let old = exists_where_both q p xs h in
    let new = exists_where-one (λ x. q x && p x) y in
    let both = exists_where-append (λ x. q x && p x) xs (y ∷ []) in ground arith

-- a table with a key, after a row with this key was changed or added
kept-or-added {ℓ} :
    {A : Type ℓ} (q p : A → Bool) (f : A → A) (y : A) (b : Bool) (xs : List A)
    → ((x : A) → q (f x) ≡ q x)
    → ((x : A) → p (f x) ≡ b)
    → q y ≡ true
    → p y ≡ b
    → exists_where
        (λ x. q x && p x)
        (if exists_where q xs then update_where q f xs else xs ++ y ∷ [])
      ≡ b
kept-or-added q p f y b xs hq hp qy py = elim (Bool-cases (exists_where q xs)) [
  | inl h ↦ rw h (exists_where-update_where q p f b xs hq hp ∙ ap (λ c. c && b) h)
  | inr h ↦ rw h (added q p y b xs h qy py)
]

module _ (e : Texts) (now t window : ℕ) (chat_id : String) (s : MessageDedup) where
  -- After a message was answered at `t`, its content counts as answered in its session exactly where
  -- the day of `t` is not before the day on which the window begins, whatever the times of day are.
  pub is_content_duplicate-mark_replied :
      (create_time : ℕ) (content reply : String)
      → is_content_duplicate e now chat_id content window
          (mark_replied e t chat_id create_time content reply s)
        ≡ leb ((now - window) / day_seconds) (t / day_seconds)
  unfolding is_content_duplicate mark_replied
  is_content_duplicate-mark_replied create_time content reply =
      kept-or-added (has_key content_key (content_hash e chat_id content))
        (λ r. later r.last_at (datetime (now - window)))
        (λ r. record r { last_at = isoformat t; count = r.count + 1; reply = reply })
        (record {
          content_hash = content_hash e chat_id content;
          chat_id = chat_id;
          content = normalize e content;
          reply = reply;
          first_at = isoformat t;
          last_at = isoformat t;
          count = 1;
        })
        _ s.content_replies (λ r. refl) (λ r. later-isoformat-datetime t (now - window)) (eq_refl _)
        (later-isoformat-datetime t (now - window))

  pub is_reply_duplicate-mark_reply_sent :
      (text : String)
      → is_reply_duplicate e now chat_id text window (mark_reply_sent e t chat_id text s)
        ≡ leb ((now - window) / day_seconds) (t / day_seconds)
  unfolding is_reply_duplicate mark_reply_sent
  is_reply_duplicate-mark_reply_sent text =
      let h = reply_hash e chat_id text in
      added (has_key reply_key h) (λ r. later r.sent_at (datetime (now - window)))
        (record {
          reply_hash = h;
          chat_id = chat_id;
          reply = normalize e text;
          sent_at = isoformat t;
        })
        _ (delete_where (has_key reply_key h) s.reply_dedup)
        (exists_where-delete_where (has_key reply_key h) s.reply_dedup) (eq_refl h)
        (later-isoformat-datetime t (now - window))
