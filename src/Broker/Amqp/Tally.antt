-- ===== src/Broker/Amqp/Tally.antt =====
-- A server that answers every call and keeps the number of messages of each queue.
use tarsk.Base.{
  Bool-cases, Option, Option-cases, Res, Text, [], err, if◌then◌else◌, inl, inr, none, ok, refl,
  some, subst, suc, text_eq, zero, ℕ, ◌+◌, ◌==◌, ◌≡◌,
}
use tarsk.Base.Dict.{Dict, contains_key, insert, lookup, lookup-insert, lookup-insert_self, or_else}
use tarsk.Broker.Amqp.Client.{AmqpClient, Message}
use tarsk.Broker.Amqp.Counting.{CountsMessages}

abbrev plain : Message (Unit {0})
plain = record { headers = none; body = []; acker = tt }

abbrev take_one :
    (name : Text) → Option ℕ → Dict Text ℕ → Res (Option (Message (Unit {0}))) × Dict Text ℕ
take_one name none s = (err, s)
take_one name (some zero) s = (ok none, s)
take_one name (some (suc n)) s = (ok (some plain), insert name n s)

abbrev put_one : (target : Text) → Option ℕ → Dict Text ℕ → Dict Text ℕ
put_one target none s = s
put_one target (some n) s = insert target (n + 1) s

abbrev pub counting_server : AmqpClient
counting_server = record {
  Server = Dict Text ℕ;
  Acker = Unit {0};
  declare = λ name arguments s. let n = or_else 0 (lookup name s) in (ok n, insert name n s);
  declare_passive = λ name s. (if contains_key name s then ok tt else err, s);
  publish = λ target body headers s. (ok tt, put_one target (lookup target s) s);
  publish_plain = λ target body s. (ok tt, put_one target (lookup target s) s);
  get = λ name s. take_one name (lookup name s) s;
  ack = λ acker s. (ok tt, s);
  nack_requeue = λ acker s. (ok tt, s);
}

absent :
    (target q : Text) (s : Dict Text ℕ)
    → lookup target s ≡ none
    → lookup q s ≡ (if target == q then none else lookup q s)
absent target q s missing = elim (Bool-cases (target == q)) [
  | inl same ↦ rw same (subst (λ q. lookup q s ≡ none) ((text_eq.beq_iff target q).0 same) missing)
  | inr apart ↦ rw apart refl
]

-- The server meets what the code relies on.
pub counting_server-CountsMessages : CountsMessages counting_server lookup
counting_server-CountsMessages = record {
  declare-answers = λ name arguments s. refl;
  declare-makes = λ name q arguments s. lookup-insert name q (or_else 0 (lookup name s)) s;
  publish-answers = λ target body headers s. refl;
  publish-adds = λ target body q headers s. elim (Option-cases (lookup target s)) [
    | inl missing ↦ rw missing (absent target q s missing)
    | inr (n, there) ↦ rw there (lookup-insert target q (n + 1) s)
  ];
  get-answers = λ name n s h. (plain, rw h refl);
  get-takes = λ name n s h. rw h (lookup-insert_self name n s);
  ack-answers = λ acker s. refl;
  ack-keeps = λ acker q s. refl;
}
