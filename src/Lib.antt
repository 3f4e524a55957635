-- ===== src/Lib.antt =====
-- The security operator of the platform mesh, modelled and verified.
--
-- The operator is a set of controllers over kcp workspaces. Each resource is handled by
-- subroutines with the operations Process, Finalize, Initialize and Terminate. They read resources
-- of several clusters, write relation tuples into the OpenFGA store of an organisation, and set up
-- realms, clients and users in Keycloak.
--
-- A subroutine is a function from the state of the world to a result and a new state
-- (Prelude/Results): a result is a value, an error that keeps what the code asks of errors, or a
-- panic, and what was written before an error stays written. OpenFGA, the clients of clusters,
-- Keycloak and the libraries for JSON, lower case and templates are parameters: records of
-- operations, some with a record of laws that says what is documented of them. Tests/ has concrete
-- worlds that fill these records, and runs the code in them. Logging is left out, and so are the
-- contexts. A text stands for its bytes, which is exact where names are ASCII.
--
--   Prelude            results, Boolean tests, lists, and Go's functions on texts (strings)
--   Api, Kube, Http    api/v1alpha1, and what the code uses of clusters and of HTTP
--   Config             internal/config/config.go: names of clusters across providers
--   Fga/Service        OpenFGA, with the laws of writing
--   Fga/Tuples         internal/fga/tuples.go: formatUser, InitialTuplesForAccount and the others
--   Fga/Manager        internal/fga/tuple_manager.go: Apply, Delete, ListWithFilter, ListWithKey
--   Fga/StoreId        internal/fga/storeid_getter.go: CachingStoreIDGetter and its loader
--   AccountPath        internal/platformmesh/account_path.go
--   Subroutine/Tuples           internal/subroutine/tuples.go
--   Subroutine/Store            internal/subroutine/store.go, and getRelatedAuthorizationModels
--   Subroutine/AccountTuples    internal/subroutine/account_tuples.go
--   Subroutine/ApiExportPolicy  internal/subroutine/apiexportpolicy.go
--   ModelGeneration    internal/subroutine/authorization_model_generation.go and internal/util
--   Idp                internal/subroutine/idp.go
--   Realm              what is sent to Keycloak for a realm and its clients
--   Registration       internal/subroutine/idp/subroutine.go, over an interface of pkg/clientreg
--   Clientreg/Admin    pkg/clientreg/keycloak/admin.go: AdminClient, over HTTP requests
--   Clientreg/Client, Retry  pkg/clientreg: client, and RetryTransport, which renews a token
--   Clientreg/Oidc     newOIDCClient, which makes of these the interface of Registration
--   Subroutine/AuthorizationModel  internal/subroutine/authorization_model.go: the model of a store
--   Subroutine/AccountInfoFinalizer  internal/subroutine/accountinfo_finalizer.go
--   Workspace/Initializer    internal/subroutine/workspace_initializer.go: the Store of a workspace
--   Workspace/CreatorInvite  internal/subroutine/invite.go
--   Workspace/Authentication  internal/subroutine/workspace_authorization.go
--   Workspace, Controllers   the subroutines of a LogicalCluster and the events of APIExportPolicies
--                            in internal/controller, and internal/terminatingworkspaces
--   Command/InitContainer    cmd/initContainer.go: the service accounts of Keycloak
--   Kcp                internal/client: the two getters of clients
--   Webhook, Predicates  internal/webhook (ValidateCreate) and internal/predicates
--   Invite             internal/subroutine/invite/subroutine.go
--
-- Subroutine/Tuples, AccountTuples and ApiExportPolicy use Fga/Manager, whose theorems say what a
-- store holds after each call; theirs follow from these. AccountTuples and ApiExportPolicy take
-- the lookup of a store's ID as a parameter, which Fga/StoreId provides.
--
-- Workspace/Initializer/Converge puts the initializer of a workspace together with the subroutines
-- of its Store in the order of internal/controller/store_controller.go. Clientreg/Admin/Refinement
-- has an abstract description of Keycloak's realms as a map, with calls as steps on it, and
-- Webhook/Realms puts the webhook over the same client.
--
-- The loops over pages of OpenFGA run on fuel, since the service decides how many pages there are:
-- the number of pages is enough. All other loops are over lists. Maps are association lists, and
-- the order in which Go goes through a map is that of the list.
--
-- Not modelled: the start-up of the commands and their flags, the registration of controllers with
-- the lifecycle library and their metrics, the listers, redirects and time-outs of HTTP, the time at
-- which entries of a cache expire, and generated code. Where a theorem follows an object through a
-- whole run, a law says that nothing else writes it meanwhile.
pub mod AccountPath
pub mod Api
pub mod Clientreg
pub mod Command
pub mod Config
pub mod Controllers
pub mod Fga
pub mod Http
pub mod Idp
pub mod Invite
pub mod Kcp
pub mod Kube
pub mod ModelGeneration
pub mod Predicates
pub mod Prelude
pub mod Realm
pub mod Registration
pub mod Subroutine
pub mod Tests
pub mod Webhook
pub mod Workspace
