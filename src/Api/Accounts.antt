-- ===== src/Api/Accounts.antt =====
-- The account-state seam of services/api/src/entitlement.rs: the traits `AccountStateStore` and
-- `MutableAccountStateStore` as an interface with the law that their documentation promises, and
-- `InMemoryAccountStateStore`, which fills it. A write through the shared handle is a new state.
use development_kit.Prelude.{
  Str, codes, Option, none, some, ◌≡◌, false, str_eq, if◌then◌else◌, inl, inr, str_eq_refl,
  ne→str_eq,
}
use development_kit.Prelude.Order.{str_ord, eq_or_ne}
use development_kit.TreeMap
use development_kit.TreeMap.{TreeMap}
use development_kit.TreeMap.Lookup.{get-insert_self, get-insert_ne}
use development_kit.Shared.Plan.{pro, active}
use development_kit.Api.Entitlement.{AccountState}

pub record AccountStateStore : Type 1 where
  pub State : Type 0
  pub account_state : State → Str → Option AccountState
  pub set_account_state : State → Str → AccountState → State
  -- A write replaces the binding of its account and touches no other.
  pub account_state-set :
      (s : State) (id j : Str) (a : AccountState)
      → account_state (set_account_state s id a) j
        ≡ (if str_eq id j then some a else account_state s j)

abbrev pub Accounts : Type 0
Accounts = TreeMap Str AccountState

unfoldable pub read : Accounts → Str → Option AccountState
read m id = TreeMap.get id m

unfoldable pub write : Accounts → Str → AccountState → Accounts
write m id a = TreeMap.insert id a m

unfoldable pub with_account : Accounts → Str → AccountState → Accounts
with_account m id a = write m id a

pub read-write :
    (m : Accounts) (id j : Str) (a : AccountState)
    → read (write m id a) j ≡ (if str_eq id j then some a else read m j)
unfolding read write
read-write m id j a = elim (eq_or_ne id j) [
  | inl e ↦ rw (← e, str_eq_refl id) (get-insert_self id a m)
  | inr ne ↦ rw (ne→str_eq id j ne) (get-insert_ne id j a m ne)
]

abbrev pub in_memory : AccountStateStore
in_memory = record {
  State = Accounts;
  account_state = read;
  set_account_state = write;
  account_state-set = read-write;
}

-- `dev_account_state` and the store that `dev_seed` builds for the account of the dev principal.
abbrev pub dev_account_state : AccountState
dev_account_state = record { plan = pro; status = active; trial = false; current_period_end = none }

unfoldable pub dev_seed : Accounts
unfolding with_account write
dev_seed = with_account TreeMap.empty (codes "acct_acme") dev_account_state
