-- ===== src/Mux/State.antt =====
-- The state of `MuxTreeGateway` (include/zg/messagetree/gateway/MuxTreeGateway.h), and what it calls.
--
-- A subscriber is the number of its object, and a filter that of its reference.
use Prim.Native.String.{String}
use zg_choir.Base.{ℕ, Bool, Option, List}
use zg_choir.Mux.Filters.{Subscription, Sent}

-- `TreeSubscriberInfo`: the entries of its path matcher, and the paths that the subscriber has heard
-- of, each with its number of segments.
pub record Info : Type 0 where
  pub entries : List (String × Option ℕ)
  pub received : List (String × ℕ)

pub record Mux : Type 0 where
  pub infos : List (ℕ × Option Info)
  pub strings : List (String × List Subscription)
  pub connected : Bool
  pub allowed : List ℕ
  pub in_batch : Bool
  pub needs_batch_end : List ℕ
  pub requested : List (ℕ × List String)

-- What is called upstream. A mark is a ping whose tag names subscribers: `obss:`.
pub data Upstream : Type 0 where
  mark : List ℕ → Upstream
  subscribe : String → Option Sent → ℕ → Upstream
  unsubscribe : String → Upstream
  request_subtrees : List String → List ℕ → ℕ → String → Bool → Upstream

-- What a subscriber is told.
pub data Callback (M : Type 0) : Type 0 where
  connection_changed : ℕ → Callback M
  node_updated : ℕ → String → Option M → String → Callback M
  begin_batch : ℕ → Callback M
  end_batch : ℕ → Callback M

pub data Status : Type 0 where
  fine bad_argument bad_object data_not_found refused : Status

-- MUSCLE's texts and path matchers: a path without a slash in front, its number of segments, and
-- whether some entry of a matcher fits a path, with a payload or without one.
pub record Paths (M : Type 0) : Type 0 where
  pub without_slash : String → String
  pub segments : String → ℕ
  pub matches : List (String × Option ℕ) → String → Option M → Bool
