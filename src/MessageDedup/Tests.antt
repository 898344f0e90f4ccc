-- ===== src/MessageDedup/Tests.antt =====
-- Messages of the dedup store, and the theorems of its modules at concrete inputs.
use realxianyu.Base.{
  ◌≡◌, true, false, List, [], ◌∷◌, refl, if◌then◌else◌, ◌==◌, nat_eq, text_append,
}
use realxianyu.MessageDedup.{
  MessageDedup, Texts, is_duplicate, is_content_duplicate, is_replied, mark_replied,
  mark_reply_sent, cleanup, content_hash, msg_hash, normalize, joined, later, datetime, isoformat,
}
use realxianyu.MessageDedup.Answered.{Call, call, run, marks, is_duplicate-run}
use realxianyu.MessageDedup.Windows.{is_content_duplicate-mark_replied}

abbrev texts : Texts
texts = record {
  md5 = λ t. t;
  show = λ n. if n == 7 then "7" else "8";
  strip = λ t. t;
  split = λ t. t ∷ [];
}

abbrev no_replies : MessageDedup
no_replies = record { message_replies = []; content_replies = []; reply_dedup = [] }

abbrev one_reply : MessageDedup
one_reply = mark_replied texts 100 "a" 7 "price?" "9" no_replies

-- an hour later, with a window of ten minutes, on the same day
is_content_duplicate-mark_replied_example :
    is_content_duplicate texts 4700 "a" "price?" 600
      (mark_replied texts 1100 "a" 8 "price?" "9" one_reply)
    ≡ true
is_content_duplicate-mark_replied_example =
    is_content_duplicate-mark_replied texts 4700 1100 600 "a" one_reply 8 "price?" "9"

next_day : is_content_duplicate texts 87100 "a" "price?" 600 one_reply ≡ false
unfolding is_content_duplicate mark_replied content_hash text_append normalize joined later datetime
    isoformat
next_day = refl

abbrev calls : List Call
calls =
    Call.sent 120 "a" "9"
    ∷ Call.replied 130 "b" 7 "price?" "9"
    ∷ Call.replied 140 "a" 7 "hello" "9"
    ∷ []

is_duplicate-run_example : is_duplicate texts "a" 7 "hello" (run texts calls one_reply) ≡ true
unfolding is_duplicate mark_replied msg_hash text_append normalize joined marks
is_duplicate-run_example = is_duplicate-run texts "a" 7 "hello" calls one_reply

never_answered : is_duplicate texts "a" 8 "hello" (run texts calls one_reply) ≡ false
unfolding run call is_duplicate mark_replied mark_reply_sent msg_hash text_append normalize joined
never_answered = refl

answered_twice : is_replied texts 90000 "a" 7 "price?" one_reply ≡ true
unfolding is_replied mark_replied msg_hash text_append normalize joined
answered_twice = refl

cleaned_up : cleanup 2600000 30 one_reply ≡ (one_reply, 0)
unfolding cleanup mark_replied later datetime isoformat
cleaned_up = refl

removed : cleanup 2700000 5 one_reply ≡ (no_replies, 2)
unfolding cleanup mark_replied later datetime isoformat
removed = refl
