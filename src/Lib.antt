-- ===== src/Lib.antt =====
-- kubezonnet counts the bytes that the pods of a Kubernetes cluster send from one zone to another.
-- An agent runs on every node: an eBPF program at a netfilter hook counts the bytes of each flow
-- inside the cluster's subnet, and every ten seconds the agent sends what was counted for the pods
-- of its node to the server. The server knows the pods, the nodes and their zones from the events
-- of the cluster, adds the bytes of cross-zone flows to the counters of the pods that sent them, and
-- shows the counters to Prometheus.
--
-- Parts and files:
--   * byteorder/byte_order.go (Htonl, Ntohl): ByteOrder, laws in ByteOrder/Laws.
--   * payload/payload.go (Encode, Decode), the batch between agent and server: Payload; reading and
--     writing of numbers in Payload/BigEndian, what each function does in Payload/Encode and
--     Payload/Decode, the two against one another in Payload/RoundTrip and Payload/Canonical.
--   * cmd/agent/main.go (main) and the part of Run in agent/agent.go around its loop: Agent/Setup, what
--     is left open in Agent/Setup/Tidy and when the agent succeeds in Agent/Setup/Exit.
--   * agent/agent.go: ipToUint32 and maskToUint32 in Agent/Address, the part of Run that turns a
--     CIDR into the constants of the eBPF program in Agent/Subnet.
--   * agent/agent.go: one tick of Run with convertToPods and filterSrcIpOnCurrentHost in
--     Agent/Collection, what the filter keeps in Agent/Collection/Filter and what a tick posts in
--     Agent/Collection/Tick; sendDataToServer in Agent/Send. The loop of Run, on the map that the
--     packets of a node are counted in, is in Agent/Node, with what one tick carries in
--     Agent/Node/Carried and all ticks in Agent/Node/Run, what can be read of it in
--     Agent/Node/Posted and Agent/Node/Conserved, and the end of the loop in Agent/Node/Shutdown.
--     Agent/Sizes has flows with their sizes, and Agent/Sizes/Agree their sums.
--   * agent/kubezonnet.c (handle_v4, nf_postrouting_hook): the header of a packet in Agent/Packet,
--     the hook in Agent/Hook, what it has counted after some packets in
--     Agent/Hook/Totals, which packets count by the bytes of their header in Agent/Hook/Wire, that
--     its keys fit their types in Agent/Hook/Keys. On several CPUs at a time, as a step relation:
--     Agent/Hook/Race, with what the packets on their way bring to a flow in Agent/Hook/Race/Running
--     and flows that have an entry in Agent/Hook/Race/Exact.
--   * agent/vmlinux.h: Agent/Layout has the types of C and the layout of the System V ABI, with
--     children for types made of scalars of the machine's sizes (Sized), what lies inside an object
--     (Inside), reads of members (Reads) and members that do not overlap (Apart);
--     Agent/Enumeration has enumerations; the types and constants themselves are in Agent/Vmlinux,
--     one file per group, under the names of the header. agent/kubezonnet.c reads the header of a
--     packet through them in Agent/Packet/Header, the ports in Agent/Packet/Ports and the protocol of
--     its context in Agent/Packet/Context; struct ip_key
--     of agent/kubezonnet.c and its bytes are in Agent/Key.
--   * cmd/server/main.go: the state `Server` in Server; the lookups of handlePayload in
--     Server/Resolve; onPodAdd, onPodUpdate, onPodDelete and handlePod in Server/Pods; onNodeAdd,
--     onNodeUpdate and onNodeDelete in Server/Nodes; handlePayload in Server/Traffic; Describe and
--     Collect in Server/Collect; the handlers as steps of one server in Server/Steps, and what
--     it takes for traffic to be counted in Server/Progress. The traffic of a pod in a batch is
--     computed in Server/Traffic/Crossing, handlers that leave the counters alone are in
--     Server/Quiet, and what the counters and a scrape show after a whole history in Server/History
--     and Server/History/Scraped. main, watchPods, watchNodes and instrumentHandler, as a function of
--     the notifications and requests, are in Server/Service; the replies to a request in
--     Server/Service/Replies, what one input does in Server/Service/Moves, any inputs in
--     Server/Service/Total, the reply to a scrape in Server/Service/Shown.
--   * the way from a tick of the agent to the counters of the server: Delivery; what the result of
--     sendDataToServer says about them: Delivery/Sent. From the packets of a node through all its
--     ticks to the counter of a pod: Delivery/Bodies and Delivery/Charged; with the bodies of all
--     nodes in any order: Delivery/Merge and Delivery/Nodes; up to the reply to a scrape:
--     Delivery/Shown.
--   * the pods, nodes and addresses that both programs read: Cluster.
--   * what these use of Go: results with errors and panics, and slices, in Prelude/Go; maps in Dict;
--     net, strings and strconv in Net. Bits has the laws of bitwise operations on words.
--
-- A Go function that can fail gives an Outcome: a value, an error or a panic. The state of the
-- server is passed on explicitly, and a handler is one step, since each of them holds the mutex
-- from its first to its last use of the maps. The eBPF map is any type with the operations of
-- MapOps and their laws. Machine integers are natural numbers with the remainder written out
-- wherever Go or C would wrap around. All loops are over lists or counts, so no fuel is needed; the
-- bounds below 2 ^ 32 - 20 are for buffers whose offsets fit a uint32.
--
-- Parameters, as their code is not in the repository: net.ParseIP, net.ParseCIDR and the text of
-- an IPv6 address; the kernel's functions for packets, bpf_ntohs, the eBPF map and its batch
-- lookup; the exchange of net/http; whether the calls of the eBPF library and of Kubernetes succeed;
-- the conversion of a counter to float64; the mux of net/http, the order of Go's iteration over the
-- counters, and the vectors that count the requests of a handler.
--
-- In what follows the packets of a node to the server, a packet runs through the hook as one step,
-- and a read of the agent is one step too, which may fail; several CPUs are in Agent/Hook/Race only.
--
-- Not modelled: how the eBPF program is loaded and attached, with the relocation of its member
-- accesses for the running kernel; the types and constants of agent/vmlinux.h outside the way of a
-- packet, the eBPF maps, programs and links and the bpf system call; the memory of the kernel behind
-- the context of the hook; reads of the agent while a
-- packet is in the hook; big-endian machines; the agent's timer and its debug output; the transport
-- of HTTP; the parsing of flags; the clients of Kubernetes and Prometheus that the server makes; log
-- output other than flows.
mod Prelude
pub mod Bits
pub mod ByteOrder
pub mod Payload
pub mod Net
pub mod Agent
pub mod Dict
pub mod Cluster
pub mod Server
pub mod Delivery
