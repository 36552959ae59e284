-- ===== src/Driver/Dispatch.antt =====
-- driver.c: the functions that pass an event on to the external libraries and to the application,
-- each with its table of callbacks. The libraries are parameters.
use tisdk_cc32xx_issues.Prelude.{
  ℕ, suc, Bool, true, false, not, ◌&&◌, List, [], ◌∷◌, Option, none, some, ◌≡◌, refl, arith,
  if◌then◌else◌,
}

-- SlExtLib1 to SlExtLib5, as far as they have a handler for the event: does it return
-- EVENT_PROPAGATION_BLOCK? `app` says that the application has a handler.
pub record Libs (E : Type 0) : Type 0 where
  pub ext1 : Option (E → Bool)
  pub ext2 : Option (E → Bool)
  pub ext3 : Option (E → Bool)
  pub ext4 : Option (E → Bool)
  pub ext5 : Option (E → Bool)
  pub app : Bool

-- A call of the handler at a place of the table, or of the application's
pub data Callee : Type 0 where
  library : ℕ → Callee
  application : Callee

module _ {E : Type 0} where
  abbrev add_callback : Option (E → Bool) → List (E → Bool) → List (E → Bool)
  add_callback none table = table
  add_callback (some f) table = f ∷ table

  -- A table of callbacks, such as general_callbacks
  unfoldable pub callbacks : Libs E → List (E → Bool)
  callbacks libs = add_callback libs.ext1 (
      add_callback libs.ext2
        (add_callback libs.ext3 (add_callback libs.ext4 (add_callback libs.ext5 []))))

  -- The loop over a table, from the place `i` on, and the call behind it
  unfoldable pub propagate : List (E → Bool) → Bool → ℕ → E → List Callee
  propagate [] app i e = if app then application ∷ [] else []
  propagate (f ∷ table) app i e =
      let rest = propagate table app (suc i) e in if f e then library i ∷ [] else library i ∷ rest

  unfoldable pub handle_general_events : Libs E → E → List Callee
  unfolding callbacks propagate
  handle_general_events libs e = propagate (callbacks libs) libs.app 0 e

  unfoldable pub handle_wlan_events : Libs E → E → List Callee
  unfolding callbacks propagate
  handle_wlan_events libs e = propagate (callbacks libs) libs.app 0 e

  unfoldable pub handle_net_app_events : Libs E → E → List Callee
  unfolding callbacks propagate
  handle_net_app_events libs e = propagate (callbacks libs) libs.app 0 e

  unfoldable pub handle_sock_events : Libs E → E → List Callee
  unfolding callbacks propagate
  handle_sock_events libs e = propagate (callbacks libs) libs.app 0 e

  unfoldable pub handle_fatal_error_events : Libs E → E → List Callee
  unfolding callbacks propagate
  handle_fatal_error_events libs e = propagate (callbacks libs) libs.app 0 e

-- The events of the HTTP server and the requests have a response that the handlers fill in.
module _ {E A : Type 0} where
  unfoldable pub handle_http_server_events : Libs (E × A) → E → A → List Callee
  unfolding callbacks propagate
  handle_http_server_events libs e response = propagate (callbacks libs) libs.app 0 (e, response)

  unfoldable pub handle_net_app_request_events : Libs (E × A) → E → A → List Callee
  unfolding callbacks propagate
  handle_net_app_request_events libs e response =
      propagate (callbacks libs) libs.app 0 (e, response)

abbrev calls_application : List Callee → Bool
calls_application [] = false
calls_application (application ∷ calls) = true
calls_application (library i ∷ calls) = calls_application calls

abbrev none_blocks {ℓ} : {E : Type ℓ} → List (E → Bool) → E → Bool
none_blocks [] e = true
none_blocks (f ∷ table) e = not (f e) && none_blocks table e

-- The application gets an event if it has a handler for it, and no library blocks it.
propagate-application :
    {E : Type 0} (table : List (E → Bool)) (app : Bool) (i : ℕ) (e : E)
    → calls_application (propagate table app i e) ≡ (none_blocks table e && app)
unfolding propagate
propagate-application [] true i e = refl
propagate-application [] false i e = refl
propagate-application (f ∷ table) app i e =
    ground (arith, propagate-application table app (suc i) e)
