-- ===== src/MessageDedup/Answered.antt =====
-- What is_duplicate in src/modules/messages/dedup.py knows after any sequence of calls.
use realxianyu.Base.{
  ℕ, ◌≡◌, Bool, true, false, ◌||◌, List, [], ◌∷◌, ◌++◌, String, ◌==◌, string_eq, if◌then◌else◌,
  Bool-cases, ◌∙◌, inl, inr, ap, arith, eq_iff, subst,
}
use realxianyu.Base.Table.{exists_where, has_key}
use realxianyu.Base.Table.Exists.{exists_where-append, exists_where-one}
use realxianyu.MessageDedup.{
  MessageDedup, MessageReply, message_key, Texts, msg_hash, normalize, isoformat, is_duplicate,
  mark_replied, mark_reply_sent,
}

-- a call of a method that writes, with the reading of the clock
pub data Call : Type 0 where
  replied : ℕ → String → ℕ → String → String → Call
  sent : ℕ → String → String → Call

module _ (e : Texts) where
  unfoldable pub call : Call → MessageDedup → MessageDedup
  call (Call.replied now c t x y) s = mark_replied e now c t x y s
  call (Call.sent now c x) s = mark_reply_sent e now c x s

  unfoldable pub run : List Call → MessageDedup → MessageDedup
  run [] s = s
  run (c ∷ cs) s = run cs (call c s)

  abbrev pub marks_one : String → Call → Bool
  marks_one h (Call.replied now c t x y) = msg_hash e c t x == h
  marks_one h (Call.sent now c x) = false

  -- whether one of the calls marks a message with this hash as answered
  unfoldable pub marks : String → List Call → Bool
  marks h [] = false
  marks h (c ∷ cs) = marks_one h c || marks h cs

-- INSERT OR IGNORE
exists_where-insert :
    (h : String) (r : MessageReply) (rows : List MessageReply)
    → exists_where
        (has_key message_key h)
        (if exists_where (has_key message_key (message_key r)) rows then rows else rows ++ r ∷ [])
      ≡ (exists_where (has_key message_key h) rows || message_key r == h)
exists_where-insert h r rows =
    elim (Bool-cases (exists_where (has_key message_key (message_key r)) rows)) [
      | inl found ↦ rw found (elim (Bool-cases (message_key r == h)) [
        | inl same ↦
            let there =
              subst (λ k. exists_where (has_key message_key k) rows ≡ true)
                ((eq_iff (message_key r) h).0 same) found in
            ground arith
        | inr other ↦ ground arith
      ])
      | inr absent ↦ rw absent (
          exists_where-append (has_key message_key h) rows (r ∷ [])
          ∙ ap (λ b. exists_where (has_key message_key h) rows || b)
              (exists_where-one (has_key message_key h) r))
    ]

module _ (e : Texts) (chat_id : String) (create_time : ℕ) (content : String) where
  is_duplicate-call :
      (c : Call) (s : MessageDedup)
      → is_duplicate e chat_id create_time content (call e c s) ≡ (
          is_duplicate e chat_id create_time content s
          || marks_one e (msg_hash e chat_id create_time content) c)
  unfolding is_duplicate call mark_replied mark_reply_sent
  is_duplicate-call (Call.replied now c t x y) s =
      exists_where-insert (msg_hash e chat_id create_time content)
        (record {
          message_hash = msg_hash e c t x;
          chat_id = c;
          content = normalize e x;
          create_time = t;
          reply = y;
          replied_at = isoformat now;
        })
        s.message_replies
  is_duplicate-call (Call.sent now c x) s = ground arith

  -- A message counts as a duplicate after any sequence of answers and sent replies exactly when it
  -- did before, or one of the answers is to a message with the same hash of session, time and
  -- content.
  pub is_duplicate-run :
      (cs : List Call) (s : MessageDedup)
      → is_duplicate e chat_id create_time content (run e cs s) ≡ (
          is_duplicate e chat_id create_time content s
          || marks e (msg_hash e chat_id create_time content) cs)
  unfolding run marks
  is_duplicate-run [] s = ground arith
  is_duplicate-run (c ∷ cs) s =
      let one = is_duplicate-call c s in let rest = is_duplicate-run cs (call e c s) in ground arith
