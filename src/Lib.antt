-- ===== src/Lib.antt =====
-- The egress gateway of a kubernetes cluster: the controller of pkg/egressgateway, the address
-- arithmetic of pkg/utils/ip, the packet marks of pkg/markallocator, the controllers of tunnels and
-- of endpoint slices and of the cluster's addresses in pkg/controller, the admission webhooks, and the
-- policies, routes and peers of the agent on a node in pkg/agent.
--
-- An EgressGateway object has a pool of addresses and a list of nodes, each with a status and
-- with the egress addresses (EIPs) that it holds; each EIP lists the policies that leave the
-- cluster through it. The controller reads requests (a policy, a cluster policy, a node, a tunnel
-- or a gateway has changed), changes the list of nodes in the gateway's status, writes it back
-- through the API client, and copies the assignment into the status of the policy.
--
-- Each node has an EgressTunnel, to which the tunnel controller gives a mark, a MAC address and the
-- addresses of the tunnel; the gateway controller reads its phase. The endpoint controllers list the
-- pods of a policy in slices, which the agents on the nodes read. The webhooks check gateways and
-- policies before the controllers see them, and fill in defaults; they use the address functions and
-- what the status of the gateway holds.
--
-- On each node the agent turns gateways, policies and endpoint slices into sets of addresses and
-- rules of iptables: packets of a policy whose node is another one get the mark of that node's
-- tunnel, and packets of a policy of this node get its address as their source. Sets and rules are
-- interfaces; a rule is the list of the calls that build it. The agent also keeps the rules of the
-- kernel that send each mark to a table of its own, and a map of the other nodes' tunnels.
--
-- Parts and files:
--   Api, Api/Phase            pkg/k8s/apis/v1beta1: the objects
--   Ip/Address, Ip/Text       pkg/utils/ip/ip.go: addresses as numbers, and the interface to the
--                             texts of Go's net package and to what the Go runtime leaves open
--   Ip/Range, Ip/Cidr, Ip/Merge   the ranges, CIDRs, merging and inclusion of the same file
--   Ip/Families               its functions on the family of a text and on lists of texts
--   Ip/Diff, Ip/Enumerate     proofs on IPsDiffSet and ParseIPRange
--   Gateway/Lookup            getAssignedIP and deleteEgressPolicy of egress_gateway.go
--   Gateway/Nodes, Choose, Pool, Assign   assignIP: choice of the node, an address that the
--                             policy names, an address of the pool, the default address
--   Gateway/Move, Usage       moveEipToReadyNode, countGatewayIP, GetEipByIPV4 and GetEipByIPV6
--   Gateway/Steps, Frame, Recorded, Shared, Least, Counts, Target, Fresh, Unused   proofs on these
--   Controller/Flow, Client   calls of the API client and the control flow of reconcile functions
--   Controller/Status, Policy, Reassign, Nodes, GatewaySync, Dispatch   Reconcile, the reconcile
--                             functions and what they call, and pkg/utils/flat.go
--   Controller/SyncEnds, Lost, Records   proofs on the loop of reconcileGateway and on the reconcile
--                             of a policy
--   MarkAllocator/Text, Range pkg/markallocator/allocator.go
--   MarkAllocator/Digits, Bounds, Holding, New   proofs on these
--   Tunnel/World              pkg/controller/tunnel/egress_tunnel.go: what the controller holds and
--                             calls, and its deferred rollbacks
--   Tunnel/Update, Keep, Release, Rebuild   updateEgressTunnel, keepEgressTunnel,
--                             releaseEgressTunnel and deleteEgressTunnel, reBuildCache and
--                             initEgressTunnel
--   Tunnel/Reconcile, Health  Reconcile with reconcileEGN and reconcileNode; tunnelListCheck
--   Tunnel/Phases, Leaks, Marks, Rewrites   proofs on these
--   Endpoint/Objects, Pods    pkg/controller/endpoint: pods, slices, newEndpoint, needUpdateEndpoint
--   Endpoint/Slices, Sync     the loops of Reconcile; Reconcile of endpointReconciler and of
--                             endpointClusterReconciler, and the lists that they read
--   Endpoint/Events           the predicates of events and the requests that events give
--   Endpoint/Fill, Chunks, Tally, Shares, Agree, Idle   proofs on these
--   Webhook/Requests          requests and answers of the webhooks
--   Webhook/GatewayChecks     EgressGatewayValidate of
--                             pkg/egressgateway/egress_gateway_webhook.go
--   Webhook/PolicyChecks, ClusterChecks   pkg/controller/webhook/validate.go: the checks of policies
--                             and those of cluster policies, which repeat them as in the source
--   Webhook/Defaults, Hooks   mutating.go of the same package, and EgressGatewayMutate; the two hooks
--   Webhook/Accepted, SameVerdict, Pools, Disjoint, Drawn   proofs on these
--   ClusterInfo/Objects, Cidrs, Info   pkg/controller/clusterinfo: the objects, the addresses and
--                             ranges that it reads, and Reconcile
--   ClusterInfo/Settled       proofs on its reconcileNode
--   Agent/Names, Rules, World   pkg/agent/police.go: the names of sets, the rules and marks, and what
--                             the reconciler holds and calls
--   Agent/Sets, PolicySets, ClusterCidrs   what stands in the sets of a policy and in those of the
--                             cluster's addresses
--   Agent/Apply, Police       initApplyPolicy; Reconcile with the reconcile functions
--   Agent/Held, Exact, ClusterSets, Synced, Pending, Diffs, Distinct, PolicyExact, Readings, Kept
--                             proofs on these
--   Agent/Routes, RuleCounts, RouteRules, Purged   pkg/agent/route/route.go, the rules that a kernel
--                             has, and proofs on them
--   Agent/Peers, Vxlan, PeerMaps   pkg/agent/vxlan.go with the neighbors of
--                             pkg/agent/vxlan/vxlan.go, and proofs on its map of peers
--   Utils/Slices, Counts      pkg/utils/list.go, slice/slice.go and node.go, and proofs on the first
--   Tests                     concrete inputs
--
-- State and correspondence. Go changes a gateway through a pointer; here a function takes the
-- gateway and returns it, and the callers of assignIP drop it on an error, as the Go callers do
-- (they return before the gateway is written). A nil pointer is none, an index of -1 is none, an
-- index out of range is panic. Errors are values; outside the webhooks their texts are not kept, but
-- those that the code tells apart (not found, conflict) are constructors. The API server is a state type S with
-- an interface of calls (Client, TunnelClient, EndpointClient, WebhookClient); the labels of selectors are an interface (Labels). Loops that
-- return early are recursions over Flow.
--
-- In the tunnel controller a deferred rollback reads a variable `err` that inner blocks hide: the
-- functions end with a Frame, which says whether that variable is set. In the endpoint controllers
-- the result is the list of errors of which NewAggregate makes one. In the webhooks a check is a
-- result: a value for Allowed, an error for Denied with the text, in which the inner errors and most
-- of the values that are formatted into it are left out. Objects come as json.Unmarshal reads them.
--
-- Bounds and fuel. uint64 arithmetic keeps `% 2 ^ 64`. The loops of ParseIPRange and CidrToIPs
-- take the fuel of Host, since the first need not end (after 255.255.255.255 the next address is
-- nil). The loop of reconcileGateway over the nodes has fuel 2 * n + 1 for n nodes: a round
-- advances the index, removes a node, or takes the node's name out of the set, after which the
-- node is removed. The loop of the endpoint controllers that makes slices has the number of its
-- endpoints as fuel, which is enough for any bound but 0 on the endpoints of a slice. The loops of
-- initEgressTunnel and of the first Reconcile (of tunnels, of cluster info and of the agent's two
-- controllers) try until a call succeeds, and take fuel.
--
-- Not modelled. An address is its family and its number, not its bytes: a 4-byte and a 16-byte
-- slice of one address are not told apart. Go's net package, govalidator, the order of map keys,
-- rand.Intn, the allocator of cilium and the API client are parameters. Logging and metrics are
-- left out. pkg/iptables, pkg/ipset, pkg/ethtool, pkg/layer2, pkg/lock and pkg/coalescing are adapted
-- copies of other projects. EnsureLink of the vxlan device, the search for its parent interface and the loops
-- keepVXLAN and syncLastHeartbeatTime of pkg/agent/vxlan.go, pkg/agent/eip.go, the timer loop of the
-- heartbeat check, the set-up of the watches and the event predicates of the gateway controller and of
-- pkg/agent/vxlan.go are not modelled; netlink is a parameter. That a map has one
-- entry for each key of its labels is taken for granted where labels are compared.
pub mod Prelude
pub mod Api
pub mod Ip
pub mod Gateway
pub mod Controller
pub mod MarkAllocator
pub mod Tunnel
mod Tests
pub mod Endpoint
pub mod Webhook
pub mod Utils
pub mod ClusterInfo
pub mod Agent
