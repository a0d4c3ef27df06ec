-- ===== src/Broker/Amqp/Draining.antt =====
-- What `dead_drain` of AmqpBroker (broker.rs) does with the messages it looks at.
pub mod Once
use tarsk.Base.{
  Bool, Bool-cases, List, Text, [], ap, false, if◌then◌else◌, inl, inr, length, suc, text_eq, true,
  zero, ℕ, ◌∷◌, ◌≡◌,
}
use tarsk.Broker.{AmqpRecord, stream_key}
use tarsk.Base.Dict.{contains_key}
use tarsk.Broker.Amqp.{encode}
use tarsk.Broker.Running.{done}
use tarsk.Broker.Amqp.Client.{AmqpBroker, ask, declare_once, declare_plain}
use tarsk.Broker.Amqp.Dead.{Seen, get_some, is_wanted, peek, requeue_all, settle_one}
use tarsk.Broker.Amqp.Driver.{publish_record}
use tarsk.Broker.Amqp.Log.{
  AmqpCall, Log, Oracle, acked, declared_queue, fetched, logging, published, put_back,
}
use tarsk.Broker.Amqp.Safe.{Post, Post-after, Post-asked, Post-when_found}

-- What the server was asked to take or to settle: the publishes, the acks and what was put back.
unfoldable pub moves : {Acker : Type 0} → Log Acker → Log Acker
moves [] = []
moves ((published target body headers, fine) ∷ log) =
    (published target body headers, fine) ∷ moves log
moves ((acked acker, fine) ∷ log) = (acked acker, fine) ∷ moves log
moves ((put_back acker, fine) ∷ log) = (put_back acker, fine) ∷ moves log
moves ((_, fine) ∷ log) = moves log

abbrev pub wanted : {Acker : Type 0} → (ids : List Text) → List (Seen Acker) → List (Seen Acker)
wanted ids [] = []
wanted ids (s ∷ seen) = let rest = wanted ids seen in if is_wanted ids s then s ∷ rest else rest

abbrev pub others : {Acker : Type 0} → (ids : List Text) → List (Seen Acker) → List (Seen Acker)
others ids [] = []
others ids (s ∷ seen) = let rest = others ids seen in if is_wanted ids s then rest else s ∷ rest

-- The values, one after the other, before what is there.
abbrev pub onto {ℓ κ} : {A : Type ℓ} {B : Type κ} → (A → B) → List A → List B → List B
onto f [] ys = ys
onto f (x ∷ xs) ys = onto f xs (f x ∷ ys)

-- A message went to the main queue, as its first attempt.
abbrev pub copy_of :
    {Acker : Type 0} → (now : ℕ) → (queue : Text) → Seen Acker → AmqpCall Acker × Bool
copy_of now queue s = (
  published (stream_key queue) s.carried.payload (encode (record s.carried { attempt = 0 }) now []),
  true,
)

abbrev pub went_back : {Acker : Type 0} → Seen Acker → AmqpCall Acker × Bool
went_back s = (put_back s.acker, true)

-- Each wanted message is acked, right after its copy where there is one, in their order; the newest
-- first, before what is there.
abbrev pub drained :
    {Acker : Type 0}
    → (times : ℕ → ℕ) → (queue : Text) → (ids : List Text) → (replay : Bool) → List (Seen Acker)
    → Log Acker
    → Log Acker
drained times queue ids replay [] log = log
drained times queue ids replay (s ∷ seen) log = drained times queue ids replay seen (
    if is_wanted ids s
    then (acked s.acker, true)
      ∷ (if replay then copy_of (times (length seen)) queue s ∷ log else log)
    else log)

module _ {Acker : Type 0} (o : Oracle Acker) where
  abbrev pub Shows : Log Acker → AmqpBroker (logging o) → Type 0
  Shows log b = moves b.server ≡ log

  module _ (log : Log Acker) (b : AmqpBroker (logging o)) (shows : Shows log b) where
    declare_once-Shows :
        (name : Text) → Post o (λ _. Shows log) (declare_once {client = logging o} name b)
    unfolding declare_once declare_plain moves
    declare_once-Shows name = elim (Bool-cases (contains_key name b.declared)) [
      | inl known ↦ rw known shows
      | inr unknown ↦ rw unknown (
          Post-after o (λ _. Shows log) (λ _. Shows log) _
            (declare_plain {client = logging o} name b)
            (Post-after o (λ _. Shows log) (λ _. Shows log) _
              (ask {client = logging o} ((logging o).declare name []) b)
              (Post-asked o (declared_queue name) o.waiting (λ _. Shows log) b shows) (λ n b s. s))
            (λ n b s. s))
    ]

    ask_get-Shows :
        (name : Text) → Post o (λ _. Shows log) (ask {client = logging o} ((logging o).get name) b)
    unfolding moves
    ask_get-Shows name = Post-asked o (fetched name) o.found (λ _. Shows log) b shows

    pub ask_ack-Shows :
        (acker : Acker)
        → Post o
            (λ _. Shows ((acked acker, true) ∷ log))
            (ask {client = logging o} ((logging o).ack acker) b)
    unfolding moves
    ask_ack-Shows acker =
        Post-asked o (acked acker) (λ _. tt) (λ _. Shows ((acked acker, true) ∷ log)) b
          (ap (◌∷◌ (acked acker, true)) shows)

    ask_nack-Shows :
        (acker : Acker)
        → Post o
            (λ _. Shows ((put_back acker, true) ∷ log))
            (ask {client = logging o} ((logging o).nack_requeue acker) b)
    unfolding moves
    ask_nack-Shows acker =
        Post-asked o (put_back acker) (λ _. tt) (λ _. Shows ((put_back acker, true) ∷ log)) b
          (ap (◌∷◌ (put_back acker, true)) shows)

    publish-Shows :
        (target : Text) (r : AmqpRecord) (now : ℕ)
        → Post o
            (λ _. Shows ((published target r.payload (encode r now []), true) ∷ log))
            (publish_record {client = logging o} target r now [] b)
    unfolding publish_record moves
    publish-Shows target r now =
        let copy : AmqpCall Acker × Bool = (published target r.payload (encode r now []), true) in
        Post-asked o (published target r.payload (encode r now [])) (λ _. tt)
          (λ _. Shows (copy ∷ log)) b (ap (◌∷◌ copy) shows)

  get_some-Shows :
      (lossy : Text → Text) (name : Text) (limit : ℕ) (log : Log Acker) (b : AmqpBroker (logging o))
      → Shows log b
      → Post o (λ _. Shows log) (get_some {client = logging o} lossy name limit b)
  unfolding get_some
  get_some-Shows lossy name zero log b shows = shows
  get_some-Shows lossy name (suc limit) log b shows =
      let Same : List (Seen Acker) → AmqpBroker (logging o) → Type 0 = λ _. Shows log in
      Post-after o (λ _. Shows log) Same _ (ask {client = logging o} ((logging o).get name) b)
        (ask_get-Shows log b shows name)
        λ found c s. Post-when_found o Same found (done []) _ c s λ m.
          Post-after o Same Same _ (get_some {client = logging o} lossy name limit c)
            (get_some-Shows lossy name limit log c s) (λ rest d t. t)

  pub peek-Shows :
      (lossy : Text → Text) (name : Text) (limit : ℕ) (log : Log Acker) (b : AmqpBroker (logging o))
      → Shows log b
      → Post o (λ _. Shows log) (peek {client = logging o} lossy name limit b)
  unfolding peek
  peek-Shows lossy name limit log b shows =
      Post-after o (λ _. Shows log) (λ _. Shows log)
        (λ _. get_some {client = logging o} lossy name limit)
        (declare_once {client = logging o} name b) (declare_once-Shows log b shows name)
        (λ _ c s. get_some-Shows lossy name limit log c s)

  pub requeue_all-Shows :
      (seen : List (Seen Acker)) (log : Log Acker) (b : AmqpBroker (logging o))
      → Shows log b
      → Post o (λ _. Shows (onto went_back seen log)) (requeue_all {client = logging o} seen b)
  unfolding requeue_all
  requeue_all-Shows [] log b shows = shows
  requeue_all-Shows (s ∷ seen) log b shows =
      Post-after o (λ _. Shows (went_back s ∷ log))
        (λ _. Shows (onto went_back seen (went_back s ∷ log)))
        (λ _. requeue_all {client = logging o} seen)
        (ask {client = logging o} ((logging o).nack_requeue s.acker) b)
        (ask_nack-Shows log b shows s.acker)
        (λ _ c t. requeue_all-Shows seen (went_back s ∷ log) c t)

  pub settle_one-Shows :
      (now : ℕ) (queue : Text) (replay : Bool) (s : Seen Acker) (log : Log Acker)
      (b : AmqpBroker (logging o))
      → Shows log b
      → Post o
          (λ _. Shows (if replay then copy_of now queue s ∷ log else log))
          (settle_one {client = logging o} now queue replay s.carried b)
  settle_one-Shows now queue true s log b shows =
      let first = record s.carried { attempt = 0 } in
      Post-after o (λ _. Shows log) (λ _. Shows (copy_of now queue s ∷ log))
        (λ _. publish_record {client = logging o} (stream_key queue) first now [])
        (declare_once {client = logging o} (stream_key queue) b)
        (declare_once-Shows log b shows (stream_key queue))
        (λ _ c t. publish-Shows log c t (stream_key queue) first now)
  settle_one-Shows now queue false s log b shows = shows
