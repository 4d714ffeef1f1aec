-- ===== src/Call/Store/Outcomes.antt =====
-- What a script can do: refuse and leave the store alone, or find its guards met and commit.
use betterfly.Prelude.{
  String, ◌≡◌, refl, ◌≢◌, ◌⊎◌, Bool, true, false, Option, none, some, List, arith, nat_eq,
}
use betterfly.Call.Types.{CallError, Session, PendingEvent}
use betterfly.Call.World.{World, Env, exists}
use betterfly.Call.Store.{
  is_held, is_current, Reply, refused, done, replayed, created, transitioned, run_create,
  run_transition, read_reply,
}

-- The operation has no record yet, and both users' keys are free.
pub record CreateGuards (env : Env) (s : Session) (op : String) (w : World) : Type 0 where
  pub is_new : exists w.clock (w.operations (env.sha256_hex op)) ≡ false
  pub caller_free : exists w.clock (w.user_calls s.caller) ≡ false
  pub callee_free : exists w.clock (w.user_calls s.callee) ≡ false

-- The operation has no record yet, the stored session is the expected one, and unless the
-- transition is terminal both users' keys name the call.
pub record TransitionGuards (env : Env) (expected updated : Session) (terminal : Bool) (op : String)
    (w : World) : Type 0 where
  pub is_new : exists w.clock (w.operations (env.sha256_hex op)) ≡ false
  pub current : is_current w updated.id expected ≡ true
  pub caller_held : terminal ≡ false → is_held w updated.caller updated.id ≡ true
  pub callee_held : terminal ≡ false → is_held w updated.callee updated.id ≡ true

pub run_create-cases :
    (env : Env) (s : Session) (op : String) (events : List PendingEvent) (w : World)
    → ((run_create env s op events w).0 ≢ some done) × ((run_create env s op events w).1 ≡ w)
      ⊎ CreateGuards env s op w
        × (run_create env s op events w ≡ (some done, created env s op events w))
unfolding run_create
run_create-cases env s op events w = ground arith

pub run_transition-cases :
    (env : Env) (s t : Session) (terminal : Bool) (op : String) (events : List PendingEvent)
    (w : World)
    → ((run_transition env s t terminal op events w).0 ≢ some done)
        × ((run_transition env s t terminal op events w).1 ≡ w)
      ⊎ TransitionGuards env s t terminal op w
        × (run_transition env s t terminal op events w
            ≡ (some done, transitioned env t terminal op events w))
unfolding run_transition
run_transition-cases env s t terminal op events w = ground arith

-- What the Go code makes of a reply leaves the store as the script left it.
pub read_reply-same : (e : CallError) (o : Option Reply) (w : World) → (read_reply e (o, w)).1 ≡ w
read_reply-same e none w = refl
read_reply-same e (some refused) w = refl
read_reply-same e (some done) w = refl
read_reply-same e (some replayed) w = refl
