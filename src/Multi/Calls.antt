-- ===== src/Multi/Calls.antt =====
-- src/multi.rs: the calls of the module, in any order.
use thread_pool.Prelude.{ℕ, Bool, String, List, [], ◌∷◌, Option, none, some}
use thread_pool.Model.{Job}
use thread_pool.Channel.{Channel}
use thread_pool.Config.{Config}
use thread_pool.Once.{Once}
use thread_pool.Multi.{Statics, shut_down, init_with_config, run_with}
use thread_pool.Multi.Changing.{resize_pool, remove_pool, add_pool}
use thread_pool.Multi.Adjusting.{
  stop_auto_adjustment, start_auto_adjustment, reset_auto_adjustment_period, toggle_pool_auto_mode,
  trigger_auto_adjustment,
}

-- A call of the module, or a round of its adjusting thread.
pub data Call : Type 0 where
  inits : (spurious : Bool) → List (String × ℕ) → Config → Call
  runs : String → Job → Call
  resizes : String → ℕ → Call
  removes : String → Call
  adds : String → ℕ → Call
  closes : (forced spurious : Bool) → Call
  starts : (period : ℕ) → Call
  stops : Call
  resets : (period : Option ℕ) → Call
  toggles : String → (auto_adjust : Bool) → Call
  triggers : Call

module _ (c : Channel) (o : Once) where
  unfoldable pub perform : Call → Statics c o → Option (Statics c o)
  perform (inits spurious keys config) s = init_with_config c o spurious keys config s
  perform (runs key f) s = run_with c o key f s
  perform (resizes key size) s = resize_pool c o key size s
  perform (removes key) s = remove_pool c o key s
  perform (adds key size) s = add_pool c o key size s
  perform (closes forced spurious) s = shut_down c o forced spurious s
  perform (starts period) s = start_auto_adjustment c o period s
  perform stops s = stop_auto_adjustment c o s
  perform (resets period) s = reset_auto_adjustment_period c o period s
  perform (toggles key auto_adjust) s = toggle_pool_auto_mode c o key auto_adjust s
  perform triggers s = trigger_auto_adjustment c o s

  unfoldable pub perform_all : List Call → Statics c o → Option (Statics c o)
  unfolding perform
  perform_all [] s = some s
  perform_all (call ∷ calls) s = elim (perform call s) [
    | none ↦ none
    | some t ↦ perform_all calls t
  ]
