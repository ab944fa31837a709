-- ===== src/Run/Stream.antt =====
-- internal/api/run_manager.go: one run, its retained frames and its subscribers. The code's map
-- `r.subscribers` and the flag `attached` change together, so the model keeps every subscriber of the
-- run in one list and reads the map as those that are attached; the order of the list stands for
-- the order in which a Go map is walked, which is any. Each method is one step, as it holds the
-- mutex. Where a method panics the model returns `none`. `queue` lists
-- the frames sent to a subscriber; reading them from the channel (`next`) is left to the caller.
pub mod Retain
pub mod Live
use oops.Prelude.{
  ℕ, zero, suc, ◌+◌, ◌-◌, String, Option, none, some, List, [], ◌∷◌, ◌++◌, Bool, true, false, not,
  ◌&&◌, ◌||◌, length, ltb, leb, ◌==◌, if◌then◌else◌,
}

-- The limits of config.RunLimits that a run reads.
pub record RunLimits : Type 0 where
  pub max_active_runs : ℕ
  pub max_retained_events : ℕ
  pub max_retained_bytes : ℕ
  pub max_subscribers : ℕ
  pub max_subscriber_queue_events : ℕ
  pub max_subscriber_queue_bytes : ℕ
  pub max_live_queue_bytes : ℕ
  pub completed_ttl : ℕ

-- The bytes of a frame are numbers.
pub record RunFrame : Type 0 where
  pub sequence : ℕ
  pub bytes : List ℕ

abbrev pub size : RunFrame → ℕ
size f = length f.bytes

pub record RunSubscriber : Type 0 where
  pub key : ℕ
  pub queue : List RunFrame
  pub pending_events : ℕ
  pub pending_bytes : ℕ
  pub attached : Bool

-- `cancel` tells that the field of that name is not nil.
pub record RunState : Type 0 where
  pub next_sequence : ℕ
  pub history : List RunFrame
  pub normal_events : ℕ
  pub normal_bytes : ℕ
  pub live_queue_bytes : ℕ
  pub subscribers : List RunSubscriber
  pub done : Bool
  pub cancel : Bool

abbrev pub new_run : RunState
new_run = record {
  next_sequence = 0;
  history = [];
  normal_events = 0;
  normal_bytes = 0;
  live_queue_bytes = 0;
  subscribers = [];
  done = false;
  cancel = true;
}

-- `len(r.subscribers)`
unfoldable pub attached_count : List RunSubscriber → ℕ
attached_count [] = 0
attached_count (s ∷ rest) = (if s.attached then 1 else 0) + attached_count rest

abbrev pub new_subscriber : ℕ → RunSubscriber
new_subscriber key = record {
  key = key;
  queue = [];
  pending_events = 0;
  pending_bytes = 0;
  attached = true;
}

pub data Subscribed : Type 0 where
  replay : List RunFrame → Subscribed
  live : List RunFrame → ℕ → Subscribed
  subscriber_limit : Subscribed

-- `subscribeLocked`; the new subscriber has the number of those before it as its key.
unfoldable pub subscribe : RunLimits → RunState → Subscribed × RunState
subscribe limits r =
    if r.done
    then (replay r.history, r)
    else if leb limits.max_subscribers (attached_count r.subscribers)
    then (subscriber_limit, r)
    else (
      live r.history (length r.subscribers),
      record r { subscribers = r.subscribers ++ new_subscriber (length r.subscribers) ∷ [] },
    )

-- What the code writes where the subtrahend may be larger.
abbrev pub less : ℕ → ℕ → ℕ
less bytes size = if ltb bytes size then 0 else bytes - size

-- A subscriber that is not attached has its channel closed.
abbrev pub detached : RunSubscriber → RunSubscriber
detached s = record s { attached = false; pending_bytes = 0; pending_events = 0 }

-- `removeSubscriberLocked` of one subscriber: the subscriber and `liveQueueBytes` after it.
unfoldable pub remove_one : ℕ → RunSubscriber → RunSubscriber × ℕ
remove_one bytes s = if s.attached then (detached s, less bytes s.pending_bytes) else (s, bytes)

abbrev pub is_full : RunLimits → ℕ → RunSubscriber → RunFrame → Bool
is_full limits bytes s frame =
    ltb limits.max_subscriber_queue_events (s.pending_events + 1)
    || ltb limits.max_subscriber_queue_bytes (s.pending_bytes + size frame)
    || ltb limits.max_live_queue_bytes (bytes + size frame)

-- `enqueueSubscriberLocked`
unfoldable pub enqueue_one : RunLimits → RunFrame → ℕ → RunSubscriber → RunSubscriber × ℕ
unfolding remove_one
enqueue_one limits frame bytes s =
    if not s.attached
    then (s, bytes)
    else if is_full limits bytes s frame
    then remove_one bytes s
    else (
      record s {
        queue = s.queue ++ frame ∷ [];
        pending_events = s.pending_events + 1;
        pending_bytes = s.pending_bytes + size frame;
      },
      bytes + size frame,
    )

-- `enqueueSubscriberLocked` and then `removeSubscriberLocked`, as the last frame of a run is sent
unfoldable pub finish_one : RunLimits → RunFrame → ℕ → RunSubscriber → RunSubscriber × ℕ
finish_one limits frame bytes s =
    let (t, now) = enqueue_one limits frame bytes s in remove_one now t

-- A loop over the subscribers.
unfoldable pub each :
    (ℕ → RunSubscriber → RunSubscriber × ℕ) → ℕ → List RunSubscriber → List RunSubscriber × ℕ
each f bytes [] = ([], bytes)
each f bytes (s ∷ rest) =
    let (t, now) = f bytes s in let (ts, last) = each f now rest in (t ∷ ts, last)

-- The loop of `publish` that drops the oldest frames; `history[0]` of an empty history panics.
pub record Retained : Type 0 where
  pub history : List RunFrame
  pub events : ℕ
  pub bytes : ℕ

abbrev pub is_over : RunLimits → ℕ → ℕ → ℕ → Bool
is_over limits added events bytes =
    ltb limits.max_retained_events (events + 1) || ltb limits.max_retained_bytes (bytes + added)

unfoldable pub evict : RunLimits → ℕ → List RunFrame → ℕ → ℕ → Option Retained
evict limits added [] events bytes =
    if is_over limits added events bytes
    then none
    else some (record { history = []; events = events; bytes = bytes })
evict limits added (dropped ∷ history) events bytes =
    let rest = evict limits added history (events - 1) (bytes - size dropped) in
    if is_over limits added events bytes
    then rest
    else some (record { history = dropped ∷ history; events = events; bytes = bytes })

abbrev pub with_frame : RunFrame → Retained → Retained
with_frame frame kept = record {
  history = kept.history ++ frame ∷ [];
  events = kept.events + 1;
  bytes = kept.bytes + size frame;
}

abbrev pub retained : RunState → Retained
retained r = record { history = r.history; events = r.normal_events; bytes = r.normal_bytes }

unfoldable pub retain : RunLimits → RunFrame → Retained → Option Retained
retain limits frame h =
    if leb (size frame) limits.max_retained_bytes
    then elim (evict limits (size frame) h.history h.events h.bytes) [
      | none ↦ none
      | some kept ↦ some (with_frame frame kept)
    ]
    else some h

abbrev pub stored : RunState → ℕ → Retained → List RunSubscriber × ℕ → RunState
stored r sequence h sent = record r {
  next_sequence = sequence;
  history = h.history;
  normal_events = h.events;
  normal_bytes = h.bytes;
  subscribers = sent.0;
  live_queue_bytes = sent.1;
}

-- `publish` of an item that is encoded as `bytes`.
unfoldable pub publish : RunLimits → List ℕ → RunState → Option RunState
publish limits bytes r =
    let frame : RunFrame = record { sequence = r.next_sequence + 1; bytes = bytes } in
    let sent = each (enqueue_one limits frame) r.live_queue_bytes r.subscribers in
    let kept = retain limits frame (retained r) in
    if r.done
    then some r
    else elim kept [ none ↦ none | some h ↦ some (stored r (r.next_sequence + 1) h sent) ]

-- `publishTerminal` of an item that is encoded as `bytes`.
unfoldable pub publish_terminal : RunLimits → List ℕ → RunState → RunState
publish_terminal limits bytes r =
    let frame : RunFrame = record { sequence = r.next_sequence + 1; bytes = bytes } in
    let sent = each (finish_one limits frame) r.live_queue_bytes r.subscribers in
    if r.done then r else record r {
      next_sequence = r.next_sequence + 1;
      history = r.history ++ frame ∷ [];
      done = true;
      cancel = false;
      subscribers = sent.0;
      live_queue_bytes = sent.1;
    }

-- `abort`: whether the run's context was cancelled.
abbrev pub abort : RunState → Bool
abort r = not (r.done || not r.cancel)

abbrev pub smaller : ℕ → ℕ → ℕ
smaller a b = if ltb b a then b else a

-- `acknowledge` of `size` bytes by the subscriber with the key.
unfoldable pub acknowledge_one : ℕ → ℕ → ℕ → RunSubscriber → RunSubscriber × ℕ
acknowledge_one key acked bytes s =
    let taken = smaller acked s.pending_bytes in
    if s.key == key && s.attached
    then (
      record s { pending_events = s.pending_events - 1; pending_bytes = s.pending_bytes - taken },
      less bytes taken,
    )
    else (s, bytes)

unfoldable pub remove_key : ℕ → ℕ → RunSubscriber → RunSubscriber × ℕ
remove_key key bytes s = if s.key == key then remove_one bytes s else (s, bytes)

abbrev pub on_subscribers : (ℕ → RunSubscriber → RunSubscriber × ℕ) → RunState → RunState
on_subscribers f r =
    let sent = each f r.live_queue_bytes r.subscribers in
    record r { subscribers = sent.0; live_queue_bytes = sent.1 }

unfoldable pub acknowledge : ℕ → ℕ → RunState → RunState
acknowledge key acked r = on_subscribers (acknowledge_one key acked) r

unfoldable pub remove_subscriber : ℕ → RunState → RunState
remove_subscriber key r = on_subscribers (remove_key key) r
