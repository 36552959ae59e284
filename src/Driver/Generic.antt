-- ===== src/Driver/Generic.antt =====
-- driver.c: _SlDrvAsyncEventGenericHandler, which calls the handler of an asynchronous event.
use tisdk_cc32xx_issues.Prelude.{
  ℕ, Bool, not, ◌&&◌, ◌||◌, List, [], ◌∷◌, Option, none, some, ◌==◌, if◌then◌else◌,
}
use tisdk_cc32xx_issues.Driver.Classify.{AsyncHandler}

-- SL_IS_PROVISIONING_ACTIVE, SL_IS_PROVISIONING_INITIATED_BY_USER and SL_IS_PROVISIONING_API_ALLOWED
pub record Provisioning : Type 0 where
  pub active : Bool
  pub initiated_by_user : Bool
  pub api_allowed : Bool

-- OpcodeTranslateTable, the test for SL_OPCODE_SILO_DEVICE, and the opcodes that pass while the
-- device is provisioned
pub record EventTable : Type 0 where
  pub translations : List (ℕ × ℕ)
  pub is_device_silo : ℕ → Bool
  pub provisioning_status : ℕ
  pub reset_request : ℕ
  pub init_complete : ℕ
  pub profile_added : ℕ
  pub net_app_request : ℕ

-- What the handler is called with: a DeviceEventInfo_t with its bInCmdContext, the buffer as it is, or
-- the buffer with the user's event in front of its data
pub data Argument : Type 0 where
  device_event : Bool → Argument
  async_buffer : Argument
  user_event : ℕ → Argument

-- The loop over OpcodeTranslateTable
unfoldable pub translate : ℕ → List (ℕ × ℕ) → Option ℕ
translate opcode [] = none
translate opcode ((key, event) ∷ table) =
    let rest = translate opcode table in if key == opcode then some event else rest

-- The filter for a device that is provisioned
unfoldable pub is_filtered : Provisioning → EventTable → ℕ → Bool
is_filtered prov t opcode =
    ((prov.active || prov.initiated_by_user) && not prov.api_allowed)
    && not (
        (opcode == t.provisioning_status)
        || ((opcode == t.reset_request)
            || ((opcode == t.init_complete)
                || ((opcode == t.profile_added) || (opcode == t.net_app_request)))))

unfoldable pub argument : EventTable → Bool → ℕ → Argument
unfolding translate
argument t in_cmd_context opcode = elim (translate opcode t.translations) [
  | some event ↦ user_event event
  | none ↦ if t.is_device_silo opcode then device_event in_cmd_context else async_buffer
]

-- _SlDrvAsyncEventGenericHandler for the opcode in the header of the buffer
unfoldable pub generic_handler :
    Provisioning → EventTable → Bool → ℕ → Option AsyncHandler → Option (AsyncHandler × Argument)
unfolding is_filtered argument
generic_handler prov t in_cmd_context opcode none = none
generic_handler prov t in_cmd_context opcode (some handler) =
    if is_filtered prov t opcode then none else some (handler, argument t in_cmd_context opcode)
