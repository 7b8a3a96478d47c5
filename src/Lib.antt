-- ===== src/Lib.antt =====
-- MyCNI: a container network plugin for Kubernetes, in Go. Each part has its own file.
--
-- plugins/ipam/etcdmode/allocator: a node takes a subnet from the cluster's pool, and its pods
-- take addresses from the node's pool; all of it are keys of etcd. Allocator.antt has one
-- function per function of allocator.go (`allocate_ip2host` for AllocateIP2Host), in the monad
-- of Exec.antt: a state, with a value, an error, a panic or an endless loop, so that what was
-- written before an error stays written. InitPool.antt has plugins/ipam/etcdmode/initpool.
--
-- etcdwrap/client.go: Etcd.antt. The server is the parameter `Etcd`, a record of operations;
-- what etcd documents is `IsLawful`, which Etcd/Memory.antt shows for a server in memory. The
-- keys of utils/conf_helper.go stand there too; Etcd/Paths.antt keeps them apart.
--
-- utils/conf_helper.go: Utils.antt, the addresses of a subnet and its gateway. The 32-bit
-- counter of the loop wraps around; its fuel is 2 ^ 32 + 1 rounds, more than it takes for any
-- subnet for which it ends.
--
-- plugins/ipam/etcdmode/main.go and allocator/config.go: Etcdmode.antt, the commands of the
-- plugin over a process, which keeps one client; Etcdmode/Fresh.antt starts a process for each
-- command.
--
-- plugins/ipam/local: Local/Store.antt is the file with the addresses and the order of locks,
-- reads and writes, Local/Store/Lock.antt its lock file; Local/Ipam.antt is the manager, whose
-- loop has 2 ^ 33 + 2 rounds of fuel, more than twice the addresses of an IPv4 subnet;
-- Local/Host.antt has pkg/config/config.go and the commands of the plugin.
--
-- bpfmap: Bpf.antt, the pinned maps over the ebpf library as the parameter `Ebpf`; keys and
-- values are the bytes of the structs. tc: Tc.antt, the commands that attach the programs, over
-- a shell as the parameter `Shell`.
--
-- plugins/main/vxlan/main.go: Vxlan.antt has the configuration, the codes of addresses and what
-- is written into the maps, Vxlan/Setup.antt the links, ARP and the programs, Vxlan/Plugin.antt
-- the commands. They act on the host as the parameter `World` of Kernel.antt: netlink,
-- namespaces, shells and the address plugin that is started. A closure that runs inside a
-- namespace acts on the variables around it and the host. pkg/ip: Links.antt; the loop that
-- names a pair of links has its ten rounds. pkg/ipam: Ifaces.antt. Exec/Keeps.antt has the rules
-- by which a part of the host is left alone; Kernel/Untouched.antt says it of the calls of the
-- host. Vxlan/Returned.antt puts the main plugin over the etcd address plugin,
-- Vxlan/Entries.antt follows a command up to the write for the pod.
--
-- cmd/myetcd.go: Subnetd.antt has the mask of subnets over an etcd server with leases, the
-- parameter `LeaseEtcd`, whose documented behaviour is `IsLawful` of Subnetd/Laws.antt;
-- Subnetd/Daemon.antt has the subnet file, the round and `main`. `log.Fatal` is a panic with its
-- message in the process.
--
-- cmd/mycnid.go: Noded.antt, the configuration and the exit code of the daemon of a node; the
-- cluster is the parameter `Cluster`. Utils/Kubeconf.antt has the rest of utils/conf_helper.go.
--
-- Text.antt has Go strings as lists of bytes, Net.antt the addresses and CIDR texts of Go's
-- `net` package as far as the program uses them. A nil address is `none`. The notation of IPv6
-- addresses, the JSON decoders, the step to the next address of the plugins library, the
-- connection to etcd and the printing of a result are parameters. Go maps are lists of entries
-- in the order of an iteration. Examples.antt has the inputs at which the theorems are applied.
--
-- Not modelled: log lines, pauses and signal handlers; calls of different processes at the same
-- time, but for the two nodes of Subnetd/Overlap.antt; cmd/kube.go, which prints what the client
-- of Kubernetes returns; the packet programs of ebpf, which are in C; the test helpers.
pub mod Prelude
pub mod Text
pub mod Net
pub mod Exec
pub mod Etcd
pub mod Utils
pub mod Allocator
pub mod InitPool
pub mod Etcdmode
pub mod Bpf
pub mod Tc
pub mod Vxlan
pub mod Local
pub mod Kernel
pub mod Links
pub mod Ifaces
pub mod Subnetd
pub mod Noded
pub mod Examples
