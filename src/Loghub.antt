-- ===== src/Loghub.antt =====
-- internal/loghub/hub.go: the hub that keeps the newest log entries and passes new ones on. A channel is
-- the list of what waits in it with its capacity, and a subscription is named by a key, the number of
-- those before it. `tail` is a natural number: the code takes a negative one as it takes 0. Where an
-- index is out of range, which panics, the model returns `none`.
pub mod Ring
pub mod Bounds
mod Examples
use oops.Prelude.{
  ℕ, zero, suc, ◌+◌, ◌-◌, ◌%◌, Option, none, some, List, [], ◌∷◌, ◌++◌, Bool, true, false, not,
  ◌&&◌, ◌||◌, length, get_elem?, set, replicate, keep, drop, leb, ltb, ◌==◌, if◌then◌else◌,
}

pub record Options : Type 0 where
  pub history_size : ℕ
  pub max_subscribers : ℕ
  pub subscriber_queue : ℕ

pub record Subscription (T : Type 0) : Type 0 where
  pub key : ℕ
  pub capacity : ℕ
  pub queue : List T

pub record Hub (T : Type 0) : Type 0 where
  pub subscribers : List (Subscription T)
  pub next_key : ℕ
  pub history : List T
  pub pos : ℕ
  pub count : ℕ
  pub max_subscribers : ℕ
  pub subscriber_queue : ℕ
  pub closed : Bool

pub data Error : Type 0 where
  subscriber_limit closed_hub : Error

abbrev pub at_least_one : ℕ → ℕ
at_least_one n = if n == 0 then 1 else n

-- `zero_value` fills a new slice of T.
unfoldable pub new_with_options : {T : Type 0} → (zero_value : T) → Options → Hub T
new_with_options zero_value options = record {
  subscribers = [];
  next_key = 0;
  history = replicate options.history_size zero_value;
  pos = 0;
  count = 0;
  max_subscribers = at_least_one options.max_subscribers;
  subscriber_queue = at_least_one options.subscriber_queue;
  closed = false;
}

-- The `select` that sends or evicts, for every subscriber.
unfoldable pub send : {T : Type 0} → T → List (Subscription T) → List (Subscription T)
send entry [] = []
send entry (sub ∷ rest) =
    let sent = send entry rest in
    if ltb (length sub.queue) sub.capacity
    then record sub { queue = sub.queue ++ entry ∷ [] } ∷ sent
    else sent

unfoldable pub push : {T : Type 0} → T → Hub T → Hub T
push entry h =
    let size = length h.history in
    if h.closed then h else record h {
      history = if ltb 0 size then set h.history (h.pos % size) entry else h.history;
      pos = if ltb 0 size then h.pos + 1 else h.pos;
      count = if ltb 0 size && ltb h.count size then h.count + 1 else h.count;
      subscribers = send entry h.subscribers;
    }

abbrev pub append_front : {T : Type 0} → Option T → Option (List T) → Option (List T)
append_front (some entry) (some rest) = some (entry ∷ rest)
append_front _ _ = none

-- The loop of `snapshotLocked`: `n` entries from `start` on.
unfoldable pub window : {T : Type 0} → List T → ℕ → ℕ → Option (List T)
window history start zero = some []
window history start (suc n) =
    append_front (get_elem? history (start % length history)) (window history (start + 1) n)

abbrev pub snapshot_size : {T : Type 0} → ℕ → Hub T → ℕ
snapshot_size tail h = if tail == 0 || ltb h.count tail then h.count else tail

unfoldable pub snapshot : {T : Type 0} → ℕ → Hub T → Option (List T)
snapshot tail h =
    let size = snapshot_size tail h in
    if h.count == 0 then some [] else window h.history (h.pos - size) size

abbrev pub registered : {T : Type 0} → List T → Hub T → Hub T
registered replay h = record h {
  subscribers =
      record { key = h.next_key; capacity = length replay + h.subscriber_queue; queue = replay }
      ∷ h.subscribers;
  next_key = h.next_key + 1;
}

pub data Subscribed (T : Type 0) : Type 0 where
  refused : Error → Subscribed T
  accepted : ℕ → List T → Subscribed T

unfoldable pub subscribe : {T : Type 0} → ℕ → Hub T → Option (Subscribed T × Hub T)
subscribe tail h =
    if h.closed
    then some (refused closed_hub, h)
    else if leb h.max_subscribers (length h.subscribers)
    then some (refused subscriber_limit, h)
    else elim (snapshot tail h) [
      | none ↦ none
      | some replay ↦ some (accepted h.next_key replay, registered replay h)
    ]

-- The function that `Subscribe` returns.
unfoldable pub cancel : {T : Type 0} → ℕ → Hub T → Hub T
cancel key h = record h { subscribers = keep (λ sub. not (sub.key == key)) h.subscribers }

-- A subscriber reads the next entry from its channel.
unfoldable pub received_by : {T : Type 0} → ℕ → List (Subscription T) → List (Subscription T)
received_by key [] = []
received_by key (sub ∷ rest) =
    let others = received_by key rest in
    if sub.key == key then record sub { queue = drop 1 sub.queue } ∷ rest else sub ∷ others

unfoldable pub receive : {T : Type 0} → ℕ → Hub T → Hub T
receive key h = record h { subscribers = received_by key h.subscribers }

unfoldable pub close : {T : Type 0} → Hub T → Hub T
close h =
    if h.closed then h else record h { closed = true; subscribers = []; history = []; count = 0 }
