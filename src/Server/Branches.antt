-- ===== src/Server/Branches.antt =====
-- src/server.rs: what holds of each branch of a handler holds of its result.
use miuturn.Common.{◌≡◌, refl, Option, none, some, Bool, true, false}
use miuturn.Message.Types.{
  Method, binding, allocate, refresh, send, data_message, create_permission, channel_bind,
}
use miuturn.Server.State.{TurnServer, Reply, no_reply}

module _ {ℓ κ} {R : Type ℓ} (P : R → Type κ) where
  pub option_case {μ} :
      {A : Type μ} (o : Option A) {n : R} {s : A → R}
      → P n
      → ((a : A) → P (s a))
      → P (elim o [ none ↦ n | some a ↦ s a ])
  option_case none on_none on_some = on_none
  option_case (some a) on_none on_some = on_some a

  pub bool_case : (b : Bool) {x y : R} → P x → P y → P (elim b [ true ↦ x | false ↦ y ])
  bool_case true on_true on_false = on_true
  bool_case false on_true on_false = on_false

pub by_method {κ} :
    (P : TurnServer × Reply → Type κ) (m : Method)
    (allocated refreshed permitted bound sent : TurnServer × Reply) (s : TurnServer) (r : Reply)
    → P allocated
    → P refreshed
    → P permitted
    → P bound
    → (m ≡ send → P sent)
    → P (s, r)
    → P (s, no_reply)
    → P (elim m [
      | binding ↦ (s, r)
      | allocate ↦ allocated
      | refresh ↦ refreshed
      | create_permission ↦ permitted
      | channel_bind ↦ bound
      | send ↦ sent
      | data_message ↦ (s, no_reply)
    ])
by_method P binding _ _ _ _ _ _ _ ha hr hp hb hs v w = v
by_method P allocate _ _ _ _ _ _ _ ha hr hp hb hs v w = ha
by_method P refresh _ _ _ _ _ _ _ ha hr hp hb hs v w = hr
by_method P create_permission _ _ _ _ _ _ _ ha hr hp hb hs v w = hp
by_method P channel_bind _ _ _ _ _ _ _ ha hr hp hb hs v w = hb
by_method P send _ _ _ _ _ _ _ ha hr hp hb hs v w = hs refl
by_method P data_message _ _ _ _ _ _ _ ha hr hp hb hs v w = w
