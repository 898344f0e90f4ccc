-- ===== src/MessageDedup.antt =====
-- src/modules/messages/dedup.py: which messages have been answered. The store is three tables, a
-- method takes the reading of the clock first, in seconds since 1970, and MD5, str and the two
-- methods of Python's texts are a parameter. The window and the age are not negative, and the clock
-- is past both, so that the truncated difference is exact. Errors of SQLite, after which
-- mark_replied rolls back, are not modelled. The proofs are in the modules below.
--
-- The columns of time hold texts. The methods write `datetime.utcnow().isoformat()`, which has a T
-- between the date and the time of day, and compare it as a text with SQLite's `datetime`, which has
-- a blank there. Both dates have ten characters, so that the comparison is that of `Stamp`: by the
-- date, then by this character, then by the time. The fraction of a second in a written text stands
-- behind the T and is never reached.
pub mod Windows
pub mod Answered
mod Tests
use realxianyu.Base.{
  ℕ, ◌+◌, ◌-◌, ◌*◌, ◌/◌, ◌%◌, Bool, ◌&&◌, ◌||◌, List, [], ◌∷◌, ◌++◌, String, ltb, ◌==◌, string_eq,
  nat_eq, if◌then◌else◌, text_append,
}
use realxianyu.Base.Table.{update_where, delete_where, count_where, exists_where, has_key}

pub record Stamp : Type 0 where
  pub day : ℕ
  pub mark : ℕ
  pub second : ℕ

abbrev pub day_seconds : ℕ
day_seconds = 86400

-- datetime.utcnow().isoformat(); 84 is T
unfoldable pub isoformat : ℕ → Stamp
isoformat now = record { day = now / day_seconds; mark = 84; second = now % day_seconds }

-- SQLite's datetime; 32 is the blank
unfoldable pub datetime : ℕ → Stamp
datetime now = record { day = now / day_seconds; mark = 32; second = now % day_seconds }

-- a > b on texts
unfoldable pub later : Stamp → Stamp → Bool
later a b =
    ltb b.day a.day
    || (a.day == b.day && (ltb b.mark a.mark || (a.mark == b.mark && ltb b.second a.second)))

pub record MessageReply : Type 0 where
  pub message_hash : String
  pub chat_id : String
  pub content : String
  pub create_time : ℕ
  pub reply : String
  pub replied_at : Stamp

pub record ContentReply : Type 0 where
  pub content_hash : String
  pub chat_id : String
  pub content : String
  pub reply : String
  pub first_at : Stamp
  pub last_at : Stamp
  pub count : ℕ

pub record ReplyDedup : Type 0 where
  pub reply_hash : String
  pub chat_id : String
  pub reply : String
  pub sent_at : Stamp

pub record MessageDedup : Type 0 where
  pub message_replies : List MessageReply
  pub content_replies : List ContentReply
  pub reply_dedup : List ReplyDedup

-- hashlib.md5(…).hexdigest, str on integers, str.strip and str.split without arguments
pub record Texts : Type 0 where
  pub md5 : String → String
  pub show : ℕ → String
  pub strip : String → String
  pub split : String → List String

abbrev pub message_key : MessageReply → String
message_key r = r.message_hash

abbrev pub content_key : ContentReply → String
content_key r = r.content_hash

abbrev pub reply_key : ReplyDedup → String
reply_key r = r.reply_hash

-- " ".join
unfoldable pub joined : List String → String
joined [] = ""
joined (x ∷ []) = x
joined (x ∷ y ∷ rest) = text_append x (text_append " " (joined (y ∷ rest)))

module _ (e : Texts) where
  unfoldable pub normalize : String → String
  normalize text = joined (e.split (e.strip text))

  unfoldable pub msg_hash : String → ℕ → String → String
  msg_hash chat_id create_time content = e.md5 (
      text_append chat_id
        (text_append ":" (text_append (e.show create_time) (text_append ":" (normalize content)))))

  unfoldable pub content_hash : String → String → String
  content_hash chat_id content = e.md5 (text_append chat_id (text_append ":" (normalize content)))

  unfoldable pub reply_hash : String → String → String
  reply_hash chat_id reply =
      e.md5 (text_append "reply:" (text_append chat_id (text_append ":" (normalize reply))))

  unfoldable pub is_duplicate : String → ℕ → String → MessageDedup → Bool
  unfolding exists_where
  is_duplicate chat_id create_time content s =
      exists_where (has_key message_key (msg_hash chat_id create_time content)) s.message_replies

  unfoldable pub is_content_duplicate : ℕ → String → String → ℕ → MessageDedup → Bool
  unfolding exists_where
  is_content_duplicate now chat_id content window_seconds s =
      exists_where
        (λ r.
          has_key content_key (content_hash chat_id content) r
          && later r.last_at (datetime (now - window_seconds)))
        s.content_replies

  unfoldable pub is_replied : ℕ → String → ℕ → String → MessageDedup → Bool
  unfolding is_duplicate is_content_duplicate
  is_replied now chat_id create_time content s =
      is_duplicate chat_id create_time content s || is_content_duplicate now chat_id content 600 s

  unfoldable pub mark_replied : ℕ → String → ℕ → String → String → MessageDedup → MessageDedup
  unfolding update_where exists_where
  mark_replied now chat_id create_time content reply s =
      let msg_h = msg_hash chat_id create_time content in
      let cnt_h = content_hash chat_id content in
      let at = isoformat now in
      let answered : MessageReply = record {
        message_hash = msg_h;
        chat_id = chat_id;
        content = normalize content;
        create_time = create_time;
        reply = reply;
        replied_at = at;
      } in
      let first : ContentReply = record {
        content_hash = cnt_h;
        chat_id = chat_id;
        content = normalize content;
        reply = reply;
        first_at = at;
        last_at = at;
        count = 1;
      } in
      let again =
        λ (r : ContentReply). record r { last_at = at; count = r.count + 1; reply = reply } in
      record s {
        message_replies =
            if exists_where (has_key message_key msg_h) s.message_replies
            then s.message_replies
            else s.message_replies ++ answered ∷ [];
        content_replies =
            if exists_where (has_key content_key cnt_h) s.content_replies
            then update_where (has_key content_key cnt_h) again s.content_replies
            else s.content_replies ++ first ∷ [];
      }

  unfoldable pub is_reply_duplicate : ℕ → String → String → ℕ → MessageDedup → Bool
  unfolding exists_where
  is_reply_duplicate now chat_id reply_text window_seconds s =
      exists_where
        (λ r.
          has_key reply_key (reply_hash chat_id reply_text) r
          && later r.sent_at (datetime (now - window_seconds)))
        s.reply_dedup

  unfoldable pub mark_reply_sent : ℕ → String → String → MessageDedup → MessageDedup
  unfolding delete_where
  mark_reply_sent now chat_id reply_text s =
      let h = reply_hash chat_id reply_text in
      let sent : ReplyDedup = record {
        reply_hash = h;
        chat_id = chat_id;
        reply = normalize reply_text;
        sent_at = isoformat now;
      } in
      record s { reply_dedup = delete_where (has_key reply_key h) s.reply_dedup ++ sent ∷ [] }

unfoldable pub cleanup : ℕ → ℕ → MessageDedup → MessageDedup × ℕ
unfolding delete_where count_where
cleanup now days s =
    let limit = datetime (now - days * day_seconds) in
    let old_message = λ (r : MessageReply). later limit r.replied_at in
    let old_content = λ (r : ContentReply). later limit r.last_at in
    let old_reply = λ (r : ReplyDedup). later limit r.sent_at in
    (
      record {
        message_replies = delete_where old_message s.message_replies;
        content_replies = delete_where old_content s.content_replies;
        reply_dedup = delete_where old_reply s.reply_dedup;
      },
      count_where old_message s.message_replies
          + count_where old_content s.content_replies
          + count_where old_reply s.reply_dedup,
    )
