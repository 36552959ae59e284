-- ===== src/Network/Listeners.antt =====
-- drivers/network/netdevice.c: the table of devices and the list of event listeners; network.c: the
-- functions that look a device up first. Memory, and the functions of the devices, are parameters.
use tisdk_cc32xx_issues.Prelude.{
  ℕ, Bool, true, List, [], ◌∷◌, ◌++◌, Option, none, some, ◌≡◌, refl, ℤ, pos, negsuc, eq_ℤ,
  get_elem?, if◌then◌else◌, arith,
}

-- networkEventListener_t: `object` and `listener` are numbers that stand for the pointers, or none
-- for NULL.
pub record Listener : Type 0 where
  pub listener : Option ℕ
  pub object : Option ℕ
  pub interface : ℕ

-- A call of a listener, with its object, the code and the value
pub record Notification : Type 0 where
  pub callee : ℕ
  pub with_object : ℕ
  pub code : ℕ
  pub value : ℕ

-- network_dev_getDevice on the table NetworkDevs
unfoldable pub get_device {ℓ} : {D : Type ℓ} → List D → ℕ → Option D
get_device devs i = get_elem? devs i

-- network_dev_register_eventListener: `n` is the element that malloc gave, if it gave one. The
-- result is the list and the code that is returned.
unfoldable pub dev_register_event_listener :
    Bool → ℕ → Option ℕ → Option ℕ → List Listener → List Listener × ℤ
dev_register_event_listener malloc_ok i object event listeners =
    if malloc_ok
    then (listeners ++ (record { listener = event; object = object; interface = i } ∷ []), negsuc 0)
    else (listeners, pos 0)

-- network_register_eventListener
unfoldable pub register_event_listener {ℓ} :
    {D : Type ℓ} → List D → Bool → ℕ → Option ℕ → Option ℕ → List Listener → List Listener × ℤ
register_event_listener devs malloc_ok i object event listeners = elim (get_device devs i) [
  | none ↦ (listeners, negsuc 0)
  | some d ↦ dev_register_event_listener malloc_ok i object event listeners
]

-- The body of the loop of network_dev_eventCallback
unfoldable pub notify_listener : ℕ → ℕ → Listener → List Notification
notify_listener code value l = elim l.object [
  | none ↦ []
  | some o ↦ elim l.listener [
    | none ↦ []
    | some f ↦ record { callee = f; with_object = o; code = code; value = value } ∷ []
  ]
]

-- network_dev_eventCallback: the calls that it makes, in their order
unfoldable pub event_callback : ℕ → ℕ → List Listener → List Notification
event_callback code value [] = []
event_callback code value (l ∷ rest) =
    notify_listener code value l ++ event_callback code value rest

-- network_get_status, network_get_mode and network_iotcl: `op` is the operation of the device.
unfoldable pub on_device {ℓ} : {D : Type ℓ} → List D → ℕ → (D → ℤ) → ℤ
on_device devs i op = elim (get_device devs i) [ none ↦ negsuc 0 | some d ↦ op d ]

-- network_is_online: `ready` is NETWORK_STATUS_READY.
unfoldable pub is_online {ℓ} : {D : Type ℓ} → ℤ → List D → ℕ → (D → ℤ) → ℤ
is_online ready devs i getstatus = if eq_ℤ (on_device devs i getstatus) ready then pos 1 else pos 0

event_callback-append :
    (code value : ℕ) (xs ys : List Listener)
    → event_callback code value (xs ++ ys)
      ≡ event_callback code value xs ++ event_callback code value ys
unfolding event_callback notify_listener
event_callback-append code value [] ys = refl
event_callback-append code value (x ∷ xs) ys =
    ground (arith, event_callback-append code value xs ys)

-- A listener that is registered on a device of the table, when there is memory, is called once at
-- every event, after the ones that were registered before it and whatever the interface is, and the
-- others are called as before.
register_event_listener-called {ℓ} :
    {D : Type ℓ} (devs : List D) (d : D) (i object event code value : ℕ) (listeners : List Listener)
    → get_device devs i ≡ some d
    → event_callback code value
        (register_event_listener devs true i (some object) (some event) listeners).0
      ≡ event_callback code value listeners
        ++ (record { callee = event; with_object = object; code = code; value = value } ∷ [])
unfolding register_event_listener dev_register_event_listener event_callback notify_listener
register_event_listener-called devs d i object event code value listeners h =
    rw (h, event_callback)
      (event_callback-append code value listeners
        (record { listener = some event; object = some object; interface = i } ∷ []))

-- The code that network_register_eventListener returns is -1 whenever the listener has been added to
-- the list, and 0 only when there was no memory for it.
register_event_listener-code {ℓ} :
    {D : Type ℓ} (devs : List D) (malloc_ok : Bool) (i : ℕ) (object event : Option ℕ)
    (listeners : List Listener)
    → (eq_ℤ (register_event_listener devs malloc_ok i object event listeners).1 (pos 0) ≡ true)
    → (register_event_listener devs malloc_ok i object event listeners).0 ≡ listeners
unfolding register_event_listener dev_register_event_listener
register_event_listener-code devs malloc_ok i object event listeners h = ground arith
