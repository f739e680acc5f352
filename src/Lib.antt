-- ===== src/Lib.antt =====
-- The SR-IOV CNI plugin for RDMA: it gives each interface of a pod a virtual function (VF) of a
-- physical function (PF), and takes it back when the pod ends. The IPAM plugin fixipam hands out the
-- address that a pod asks for.
--
-- The parts, with the code that they model (sriov/sriov.go, unless said otherwise):
--   Base                shared names, Boolean tests and list operations
--   Go                  what the program uses of the language: errors as values, calls over a host
--                       state that return, fail, panic or end the process, `defer`; texts, numbers
--                       in decimal, paths
--   Net                 package net: addresses, subnets, their comparison
--   Cni                 the result types that cross the interface to the container runtime
--   Conf                `NetConf`, `dpdkConf`, `checkIf0name`, `loadConf`
--   Host                every call of the kernel, the file system, other processes and other
--                       packages, as records of functions over an unknown host state
--   Scratch             `saveScratchNetConf`, `consumeScratchNetConf`, `saveNetConf`, `getNetConf`
--   Device              the functions on one device, from `setVfBandwidthLimits` to `setUpLink`
--   Mutex               `acquireShmMutex`, `releaseShmMutex`; Mutex.Processes has several processes
--                       at the mutex as a step relation, Mutex.Traces the calls of one as steps
--   Setup               `setupVF`: Setup.Select is the loop over the VFs, Setup.Place moves and names
--                       the devices, with the sort `LinksByIndex`
--   Release             `releaseVF`, the rollback of an ADD
--   ReleaseCustom       `releaseVFCustom`, the release on DEL
--   Pod                 the arguments of a pod, `getPodRequirements`
--   Pfs                 `pfInfo`, `pfList`, `getOrderedPF`, `getPFs`, which no command calls
--   Add                 `cmdAdd`: Add.Interfaces is the loop over the interfaces and its deferred calls,
--                       Add.Success is a relation for a loop that succeeds, and
--                       Add.Success.Exactly one for the command
--   Del                 `getNamespaceInterfaces`, `cmdDel`
--   Network             the devices' namespaces and names, an abstract view of the host, for `setupVF`,
--                       `releaseVF` and `releaseVFCustom`: what is assumed of netlink and namespaces;
--                       Network.Taking has the loop of ADD, Network.Serving the command,
--                       Network.Emptying the loop of DEL, Network.Restoring both loops; however
--                       they end, Network.Sparing has a setup, Network.Adding the loop of ADD,
--                       Network.Rolling its deferred calls, Network.Containing the command and
--                       Network.Deleting a DEL
--   Fixipam             the plugin fixipam: fixipam/config.go and fixipam/main.go
--   Tests               a host in memory, and the theorems at concrete inputs
--
-- How they interact: a command loads its configuration (Conf) and takes the mutex (Mutex; ADD takes it
-- first). ADD asks the cluster for the pod's needs (Pod), has the pod placed on PFs, and for each
-- interface sets up a VF (Setup, which saves the configuration by Scratch), calls the IPAM plugin and
-- collects the results; an early return runs the deferred calls, which release VFs by Release. DEL
-- looks through the pod's interfaces and releases them by ReleaseCustom, which reads the saved
-- configuration back.
--
-- State and effects: a call is a function of the host state `W`, which is a parameter, and returns an
-- outcome with the new state. The host is the record Host; nothing is assumed of it but what a theorem
-- names. `NetConf` is mutated through a pointer in the code; here it is passed on, and comes back
-- beside an error where the caller reads it. The variable `err` of `cmdAdd`, which the deferred calls
-- read, is a field of Add.Interfaces.Ending.
--
-- Bounds: every loop runs over a list, or over a number of rounds that the code fixes (the VF count,
-- two devices, 300 attempts at the mutex), so no fuel is needed. Only `itoa` has fuel, the number
-- itself, which is enough since each step divides by ten. Numbers of VFs and rates are natural
-- numbers; a VLAN, a VF count and the VF number of the configuration are integers.
--
-- Not modelled: the types under sriov/cni, which are a copy of containernetworking/cni,
-- and vendored packages, which are parameters; the log, `init` and both `main` functions; tests and
-- images. Of a shared memory file only its name is kept, and the locks of threads to namespaces
-- (`runtime.LockOSThread`) are left out, since a command has one thread.
pub mod Base
pub mod Go
pub mod Net
pub mod Cni
pub mod Conf
pub mod Host
pub mod Scratch
pub mod Device
pub mod Mutex
pub mod Setup
pub mod Release
pub mod ReleaseCustom
pub mod Pod
pub mod Add
pub mod Del
pub mod Pfs
pub mod Network
pub mod Fixipam
mod Tests
