-- ===== src/Tests/Machine.antt =====
-- A host in memory, on which the commands of sriov/sriov.go run. It has one list of devices,
-- files, and the mutex.
use Prim.Native.String.{String}
use rit_k8s_rdma_sriov_cni.Base.{
  ℕ, Bool, true, false, Option, none, some, List, [], ◌∷◌, map, length, leb, ◌==◌, ◌=?◌,
  if◌then◌else◌,
}
use rit_k8s_rdma_sriov_cni.Go.{Error, host, Outcome, ok, err, exit, panic, Run, success, pure, fail}
use rit_k8s_rdma_sriov_cni.Go.Strconv.{pos}
use rit_k8s_rdma_sriov_cni.Conf.{NetConf}
use rit_k8s_rdma_sriov_cni.Cni.{IpamResult, Dns}
use rit_k8s_rdma_sriov_cni.Host.{
  Host, Netlink, Files, Processes, NetInterface, Namespaces, Netns, Shm, Json, Ipam, VfInfo, PfInfo,
  InterfaceRequest, Cluster,
}

pub record World : Type 0 where
  pub files : List (String × String)
  pub locked : Bool
  pub devices : List (String × ℕ)
  pub current_ns : ℕ

-- What the programs that the plugin calls answer
pub record Settings : Type 0 where
  pub conf : NetConf
  pub answer : IpamResult
  pub requests : List InterfaceRequest
  pub pfs : List PfInfo

unfoldable pub find : {A : Type 0} → String → List (String × A) → Option A
find key [] = none
find key ((k, v) ∷ rest) = if key =? k then some v else find key rest

unfoldable pub without : {A : Type 0} → String → List (String × A) → List (String × A)
without key [] = []
without key ((k, v) ∷ rest) =
    let others = without key rest in if key =? k then others else (k, v) ∷ others

unfoldable pub renamed : ℕ → String → List (String × ℕ) → List (String × ℕ)
renamed index new [] = []
renamed index new ((name, i) ∷ rest) =
    (if i == index then new else name, i) ∷ renamed index new rest

unfoldable pub or_missing : {A : Type 0} → Option A → Run World Error A
or_missing none = fail (host "not found")
or_missing (some a) = pure a

abbrev pub done : Run World Error Unit
done = pure tt

-- `Do` runs the function in a goroutine: its panic ends the process.
unfoldable pub in_goroutine : Outcome Error Unit → Outcome Error Unit
in_goroutine (ok a) = ok a
in_goroutine (err e) = err e
in_goroutine exit = exit
in_goroutine panic = exit

abbrev pub netlink : Netlink World
netlink = record {
  link_by_name = λ name w.
      or_missing (elim (find name w.devices) [ none ↦ none | some i ↦ some (record { index = i }) ])
        w;
  link_set_name = λ l new w. (ok tt, record w { devices = renamed l.index new w.devices });
  link_set_up = λ l. done;
  link_set_down = λ l. done;
  link_set_ns_fd = λ l ns. done;
  link_set_vf_vlan = λ l vf vlan. done;
}

abbrev pub files : Files World
files = record {
  lstat = λ path. pure true;
  stat = λ path. done;
  is_not_exist = λ e. false;
  read_dir = λ path. pure ("enp1s0f2" ∷ []);
  read_file = λ path w. or_missing (find path w.files) w;
  read_link = λ path. pure "../0000:01:00.2";
  write_file = λ path bytes w. (ok tt, record w { files = (path, bytes) ∷ w.files });
  mkdir_all = λ path. done;
  remove = λ path w. (ok tt, record w { files = without path w.files });
  eval_symlinks = λ path. pure path;
  glob = λ pattern. pure [];
}

abbrev pub processes : Processes World
processes = record {
  start_command = λ args. done;
  run_command = λ args w. (ok tt, w);
  getenv = λ name w. "";
  setenv = λ name value. done;
  intn = λ n. pure 7;
}

abbrev pub namespaces : Namespaces World
namespaces = record {
  get_ns = λ path. pure 1;
  get_current_ns = pure 0;
  set_ns = λ ns. done;
  do_in_ns = λ ns m w. (in_goroutine (m w).0, (m w).1);
  close_ns = λ ns. done;
}

abbrev pub interface_of : String × ℕ → NetInterface
interface_of (name, i) = record { name = name; mac = "02:00" }

abbrev pub netns : Netns World
netns = record {
  get_netns = λ w. (ok w.current_ns, w);
  get_netns_from_path = λ path. pure 1;
  set_netns = λ ns w. (ok tt, record w { current_ns = ns });
  close_netns = λ ns. done;
  interfaces = λ w. (ok (map interface_of w.devices), w);
}

abbrev pub shm : Shm World
shm = record {
  create_exclusive = λ name w.
      if w.locked then (err (host "file exists"), w) else (ok name, record w { locked = true });
  open_existing = λ name w. if w.locked then (ok name, w) else (err (host "no such file"), w);
  unlink = λ name w. (ok tt, record w { locked = false });
  close_file = λ name. done;
  sleep_one_second = done;
}

abbrev pub found_vf : String → List VfInfo → Option VfInfo
found_vf mac [] = none
found_vf mac (vf ∷ vfs) = if vf.mac =? mac then some vf else found_vf mac vfs

abbrev pub no_dns : Dns
no_dns = record { nameservers = []; domain = ""; search_list = []; options = [] }

module _ (s : Settings) where
  abbrev pub json : Json
  json = record {
    unmarshal_net_conf = λ bytes. success s.conf;
    marshal_net_conf = λ conf. success "{}";
  }

  abbrev pub ipam : Ipam World
  ipam = record {
    exec_add = λ plugin bytes. pure s.answer;
    exec_del = λ plugin bytes. done;
    configure_iface = λ if_name result. done;
  }

  abbrev pub cluster : Cluster World
  cluster = record {
    build_config_from_flags = λ url path. pure 0;
    new_for_config = λ config. pure 0;
    get_pod_annotation = λ client ns name key. pure "rdma";
    unmarshal_requests = λ text. success s.requests;
    query_node = λ address port timeout. pure s.pfs;
    place_pod = λ requests pfs.
        if leb (length requests) (length pfs) then (map (λ r. 0) requests, true) else ([], false);
    find_associated_mac = λ pf mac. found_vf mac pf.vfs;
  }

  abbrev pub machine : Host World
  machine = record {
    netlink = netlink;
    files = files;
    processes = processes;
    namespaces = namespaces;
    netns = netns;
    shm = shm;
    json = json;
    ipam = ipam;
    results = record {
      new_result_from_result = λ r.
          success (record {
            cni_version = "0.4.0";
            interfaces = [];
            ips = [];
            routes = [];
            dns = no_dns;
          });
      print_result = λ r. done;
      print_nil_result = done;
    };
    cluster = cluster;
    sriovnet = record {
      enable_sriov = λ name. done;
      get_pf_netdev_handle = λ name. pure 0;
      config_vfs = λ pf flag. done;
    };
  }

abbrev pub conf : NetConf
conf = record {
  name = "rdma-net";
  plugin_type = "sriov";
  ipam_type = "fixipam";
  dns = no_dns;
  dpdk_mode = false;
  shared_vf = false;
  dpdk_conf = record {
    pci_addr = "";
    ifname = "";
    k_driver = "";
    dpdk_driver = "";
    dpdk_tool = "";
    vfid = pos 0;
  };
  cni_dir = "/var/lib/cni/sriov";
  if0name = "";
  l2_mode = false;
  vlan = pos 0;
}

abbrev pub conf_l2 : NetConf
conf_l2 = record conf { l2_mode = true }

abbrev pub request : InterfaceRequest
request = record { min_tx_rate = 10; max_tx_rate = 100 }

abbrev pub pf : PfInfo
pf = record { name = "enp1s0"; vfs = record { vf_number = 3; mac = "02:00" } ∷ [] }

-- One interface for one PF; the IPAM plugin answers without an address.
abbrev pub settings : Settings
settings = record {
  conf = conf;
  answer = record { ip4 = none; ip6 = none; dns = no_dns };
  requests = request ∷ [];
  pfs = pf ∷ [];
}

-- The PF with four VFs, and the device of one of them
abbrev pub world : World
world = record {
  files = ("/sys/class/net/enp1s0/device/sriov_numvfs", "4") ∷ [];
  locked = false;
  current_ns = 0;
  devices = ("enp1s0", 5) ∷ ("enp1s0f2", 9) ∷ [];
}
