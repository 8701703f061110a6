-- ===== src/Holmes/Directory.antt =====
-- What the registry of internal/holmesprovider/registry.go says about the agents, without the order
-- in which its map holds them: a quotient of the registries by what `Cluster` answers.
use mathlib.Core.Quot
use mathlib.Core.Quot.{Quot, Quot-set}
use hive_agent.Prelude.{ℕ, String, ◌≡◌, ◌≢◌, refl, sym, ap, ◌∙◌, ◌↔◌, some, List, eq_iff, arith, In}
use mathlib.Core.List.Permᴰ
use hive_agent.Prelude.Sets.{String-set}
use hive_agent.Prelude.Sorting.{Ascending-ext}
use hive_agent.Holmes.Types.{ClusterInfo}
use hive_agent.Holmes.Registry.{
  ToolRegistry, id_of, clusters, cluster_of, register_agent, unregister_agent, values,
}
use hive_agent.Holmes.Iteration.{
  IsKeyed, agent_registered, agent_unregistered, apply, apply-IsKeyed, clusters_any_order,
}
use hive_agent.Holmes.Members.{mem-clusters_iff}
use hive_agent.Holmes.Changes.{cluster_of-register, cluster_of-unregister}

-- `Cluster` answers alike.
abbrev pub SameClusters : ToolRegistry → ToolRegistry → Type 0
SameClusters r q = (id : String) → cluster_of r id ≡ cluster_of q id

-- Two keyed registries in which `Cluster` answers alike for every id list the same clusters in the
-- same order, though their maps may hold them in different orders.
pub clusters-SameClusters :
    (r q : ToolRegistry) → IsKeyed r → IsKeyed q → SameClusters r q → clusters r ≡ clusters q
clusters-SameClusters r q kr kq same =
    let member : (b : ToolRegistry) (k : IsKeyed b) (c : ClusterInfo)
        → In c (clusters b) ↔ (cluster_of b c.cluster_id ≡ some c) =
      λ b k c. mem-clusters_iff b c k in
    let ascending_r = (clusters_any_order r (values r.cluster_map) kr (Permᴰ.refl _)).1 in
    let ascending_q = (clusters_any_order q (values q.cluster_map) kq (Permᴰ.refl _)).1 in
    Ascending-ext id_of (clusters r) (clusters q) ascending_r ascending_q (λ c. (
      (λ m. (member q kq c).1 (sym (same c.cluster_id) ∙ (member r kr c).0 m)),
      (λ m. (member r kr c).1 (same c.cluster_id ∙ (member q kq c).0 m)),
    ))

abbrev Built : Type 0
Built = (r : ToolRegistry) × IsKeyed r

abbrev Alike : Built → Built → Type 0
Alike b c = SameClusters b.0 c.0

abbrev pub Directory : Type 0
Directory = Quot Alike

enlisted : ℕ → ClusterInfo → Built → Built
unfolding apply
enlisted now info (r, k) =
    (register_agent now info r, apply-IsKeyed (agent_registered now info) r k)

delisted : String → Built → Built
unfolding apply
delisted id (r, k) = (unregister_agent id r, apply-IsKeyed (agent_unregistered id) r k)

register_alike :
    (now : ℕ) (info : ClusterInfo) (r q : ToolRegistry)
    → SameClusters r q
    → SameClusters (register_agent now info r) (register_agent now info q)
register_alike now info r q h id =
    rw (cluster_of-register now info r id, cluster_of-register now info q id, h id) refl

unregister_alike :
    (gone : String) (r q : ToolRegistry)
    → SameClusters r q
    → SameClusters (unregister_agent gone r) (unregister_agent gone q)
unregister_alike gone r q h id =
    rw (cluster_of-unregister gone r id, cluster_of-unregister gone q id, h id) refl

-- `RegisterAgent`, `UnregisterAgent` and `Clusters` on the quotient.
pub enlist : ℕ → ClusterInfo → Directory → Directory
enlist now info =
    Quot.lift Quot-set (λ b. Quot.mk (enlisted now info b))
      (λ b c h. Quot.sound (unfold enlisted in register_alike now info b.0 c.0 h))

pub delist : String → Directory → Directory
delist id =
    Quot.lift Quot-set (λ b. Quot.mk (delisted id b))
      (λ b c h. Quot.sound (unfold delisted in unregister_alike id b.0 c.0 h))

pub listed : Directory → List ClusterInfo
listed =
    Quot.lift (hlevel String-set) (λ b. clusters b.0)
      (λ b c h. clusters-SameClusters b.0 c.0 b.1 c.1 h)

registered_comm :
    (now later : ℕ) (a b : ClusterInfo) (r : ToolRegistry)
    → a.cluster_id ≢ b.cluster_id
    → SameClusters
        (register_agent now a (register_agent later b r))
        (register_agent later b (register_agent now a r))
registered_comm now later a b r distinct id = ground (
  arith,
  cluster_of-register now a (register_agent later b r) id,
  cluster_of-register later b r id,
  cluster_of-register later b (register_agent now a r) id,
  cluster_of-register now a r id,
  eq_iff a.cluster_id id,
  eq_iff b.cluster_id id,
)

registered_again :
    (now later : ℕ) (a b : ClusterInfo) (r : ToolRegistry)
    → a.cluster_id ≡ b.cluster_id
    → SameClusters (register_agent now a (register_agent later b r)) (register_agent now a r)
registered_again now later a b r same id = ground (
  arith,
  cluster_of-register now a (register_agent later b r) id,
  cluster_of-register later b r id,
  cluster_of-register now a r id,
  eq_iff a.cluster_id id,
  eq_iff b.cluster_id id,
)

removed_again :
    (later : ℕ) (gone : String) (b : ClusterInfo) (r : ToolRegistry)
    → gone ≡ b.cluster_id
    → SameClusters (unregister_agent gone (register_agent later b r)) (unregister_agent gone r)
removed_again later gone b r same id = ground (
  arith,
  cluster_of-unregister gone (register_agent later b r) id,
  cluster_of-register later b r id,
  cluster_of-unregister gone r id,
  eq_iff gone id,
  eq_iff b.cluster_id id,
)

-- Registrations of different clusters commute: the directory does not tell which agent came first.
pub enlist_comm :
    (now later : ℕ) (a b : ClusterInfo)
    → a.cluster_id ≢ b.cluster_id
    → (d : Directory) → enlist now a (enlist later b d) ≡ enlist later b (enlist now a d)
unfolding enlist enlisted
enlist_comm now later a b distinct =
    Quot.ind (λ d. Quot-set _ _) (λ c. Quot.sound (registered_comm now later a b c.0 distinct))

-- A registration takes the place of an earlier one of the same cluster, and a removal leaves what
-- was before it, so that both can be made again without a change.
pub enlist_again :
    (now later : ℕ) (a b : ClusterInfo)
    → a.cluster_id ≡ b.cluster_id
    → (d : Directory) → enlist now a (enlist later b d) ≡ enlist now a d
unfolding enlist enlisted
enlist_again now later a b same =
    Quot.ind (λ d. Quot-set _ _) (λ c. Quot.sound (registered_again now later a b c.0 same))

pub delist-enlist :
    (later : ℕ) (gone : String) (b : ClusterInfo)
    → gone ≡ b.cluster_id
    → (d : Directory) → delist gone (enlist later b d) ≡ delist gone d
unfolding enlist enlisted delist delisted
delist-enlist later gone b same =
    Quot.ind (λ d. Quot-set _ _) (λ c. Quot.sound (removed_again later gone b c.0 same))

-- So the order in which two different agents register does not show in the list of the clusters.
pub register_order :
    (now later : ℕ) (a b : ClusterInfo) (r : ToolRegistry)
    → IsKeyed r
    → a.cluster_id ≢ b.cluster_id
    → clusters (register_agent now a (register_agent later b r))
      ≡ clusters (register_agent later b (register_agent now a r))
unfolding enlist enlisted listed
register_order now later a b r k distinct =
    ap (λ (d : Directory). listed d) (enlist_comm now later a b distinct (Quot.mk (r, k)))
