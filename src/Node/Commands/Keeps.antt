-- ===== src/Node/Commands/Keeps.antt =====
-- What a change of the policy (`mutate_policy` of crates/ocid/src/node.rs) leaves alone, from what the
-- pruning of a window leaves alone.
use ocid.Prelude.{Bool, Eq, Result, Bool-keeps, Result-keeps}
use ocid.Text.{Text}
use ocid.Identity.{Keys}
use ocid.Policy.Rules.{Policy}
use ocid.Policy.Edit.{Change}
use ocid.Store.{Store}
use ocid.Node.Gc.{enforce_window}
use ocid.Node.Remove.Keeps.{enforce_all_windows-keeps}
use ocid.Node.Commands.{Local, install_policy, mutate_policy}

module _ {Key : Type 0} ⦃eq : Eq Key⦄ (keys : Keys Key) (subscribe : Key → Bool) (me : Key)
    (P : Store Key → Type 0)
    (pruned : (policy : Policy) (st : Store Key) (p : Key) (n : Text)
      → P st
      → P (enforce_window keys policy me st p n).0) where
  pub install_policy-keeps :
      (policy : Policy) (here : Local Key)
      → P here.store
      → P (install_policy keys subscribe me policy here).store
  unfolding install_policy
  install_policy-keeps policy here h =
      enforce_all_windows-keeps keys P policy me (pruned policy) here.store h

  pub mutate_policy-keeps :
      (saved : Policy → Bool) (f : Policy → Change) (here : Local Key)
      → P here.store
      → P (mutate_policy keys subscribe saved me f here).0.store
  unfolding mutate_policy
  mutate_policy-keeps saved f here h =
      Result-keeps {B = Local Key × Result Bool} (λ o. P o.0.store) (f here.policy) _ _ (λ e. h)
        (λ out q.
          Bool-keeps {B = Local Key × Result Bool} (λ o. P o.0.store) (saved out.0) _ _
            (λ c. install_policy-keeps out.0 here h) (λ c. h))
