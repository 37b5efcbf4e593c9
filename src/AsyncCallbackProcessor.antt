-- ===== src/AsyncCallbackProcessor.antt =====
-- src/common/Utilities/AsyncCallbackProcessor.h: the callbacks that wait for an answer, each of which is asked once
-- in a round whether it is ready, and is then invoked.
pub mod Rounds
mod Runs
use warhead_discord_client.Common.{ℕ, Bool, true, false, List, [], ◌∷◌, ◌++◌, if◌then◌else◌}

-- What `InvokeIfReady` of a callback does: it says whether the callback is done, it may add callbacks, and it
-- changes what the callbacks share.
pub record Invoked (T S : Type 0) : Type 0 where
  pub is_done : Bool
  pub added : List T
  pub shared : S

-- The processor, with what the callbacks share.
pub record AsyncCallbackProcessor (T S : Type 0) : Type 0 where
  pub callbacks : List T
  pub shared : S

module _ {T S : Type 0} where
  unfoldable pub add_callback : T → AsyncCallbackProcessor T S → AsyncCallbackProcessor T S
  add_callback query p = record p { callbacks = p.callbacks ++ (query ∷ []) }

  abbrev pub add_callbacks : List T → AsyncCallbackProcessor T S → AsyncCallbackProcessor T S
  unfolding add_callback
  add_callbacks [] p = p
  add_callbacks (query ∷ queries) p = add_callbacks queries (add_callback query p)

module _ {T S : Type 0} (invoke_if_ready : T → S → Invoked T S) where
  abbrev pub invoke : T → AsyncCallbackProcessor T S → AsyncCallbackProcessor T S
  invoke callback p =
      let i = invoke_if_ready callback p.shared in
      add_callbacks i.added (record p { shared = i.shared })

  -- A callback that is done goes, another is kept.
  abbrev pub kept_unless :
      Bool → T → List T × AsyncCallbackProcessor T S → List T × AsyncCallbackProcessor T S
  kept_unless true callback (left, p) = (left, p)
  kept_unless false callback (left, p) = (callback ∷ left, p)

  -- `remove_if` with `InvokeIfReady`: the callbacks that are left, and the processor.
  unfoldable pub remove_ready :
      List T → AsyncCallbackProcessor T S → List T × AsyncCallbackProcessor T S
  unfolding add_callback
  remove_ready [] p = ([], p)
  remove_ready (callback ∷ update_callbacks) p =
      kept_unless (invoke_if_ready callback p.shared).is_done callback
        (remove_ready update_callbacks (invoke callback p))

  abbrev pub put_back : List T × AsyncCallbackProcessor T S → AsyncCallbackProcessor T S
  put_back (left, p) = record p { callbacks = p.callbacks ++ left }

  abbrev pub process : List T → AsyncCallbackProcessor T S → AsyncCallbackProcessor T S
  unfolding remove_ready
  process [] p = p
  process (callback ∷ rest) p =
      put_back (remove_ready (callback ∷ rest) (record p { callbacks = [] }))

  -- The callbacks are moved away while they are asked, so that those that are added meanwhile wait for
  -- the next round.
  unfoldable pub process_ready_callbacks : AsyncCallbackProcessor T S → AsyncCallbackProcessor T S
  unfolding process
  process_ready_callbacks p = process p.callbacks p
