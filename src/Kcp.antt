-- ===== src/Kcp.antt =====
-- internal/client: where the clients of logical clusters come from.
use security_operator.Prelude.{
  String, [], ◌∷◌, Option, none, some, Exec, Result, fail, raise, context, lift, ◌>>=◌,
}
use security_operator.Prelude.Text.{concat}
use security_operator.Kube.{Client, Manager, KcpClientGetter}

-- ManagerKCPClientGetter: the clusters that the manager knows.
unfoldable pub manager_kcp_client_getter : {W : Type 0} → Manager W → KcpClientGetter W
manager_kcp_client_getter mgr = record {
  new_client_for_logical_cluster = λ cluster. context "getting cluster" (mgr.get_cluster cluster);
  new_client_from_context = context "getting cluster from context" mgr.cluster_from_context;
}

-- The libraries: a URL with its path replaced, and the client of a host.
module _ {W U : Type 0} (parse_url : String → Result U) (with_path : U → String → String)
    (new_client : String → Exec W (Client W)) where
  unfoldable pub client_for_path : String → String → Exec W (Client W)
  client_for_path host path = do
    parsed ← context "parsing host from config" (lift (parse_url host))
    new_client (with_path parsed path)

  abbrev pub new_for_logical_cluster : String → String → Exec W (Client W)
  new_for_logical_cluster host cluster_key =
      client_for_path host (concat ("/clusters/" ∷ cluster_key ∷ []))

  -- ConfigSchemeKCPClientGetter: clients of one host, with the cluster of the context.
  unfoldable pub config_scheme_kcp_client_getter : String → Option String → KcpClientGetter W
  unfolding client_for_path
  config_scheme_kcp_client_getter host cluster = record {
    new_client_for_logical_cluster = new_for_logical_cluster host;
    new_client_from_context = elim cluster [
      | none ↦ raise (
          fail
            "no cluster set in context, use ReconcilerWithCluster helper when building the controller")
      | some name ↦ new_for_logical_cluster host name
    ];
  }
