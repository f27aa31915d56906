-- ===== src/Tests.antt =====
-- A scripted target, a small configuration, and each property at a concrete input.
mod Targets
mod Handlers
mod Numbers
mod Machines
mod Locking
mod Drivers
mod Xpus
mod Backends
mod Contexts
mod Composed
mod Startups
use spdk_csi.Prelude.Int.{ℤ, pos, negsuc}
use spdk_csi.Prelude.{ℕ, ◌⊎◌, inl, inr, Option, none, some, List, [], ◌∷◌}
use spdk_csi.Text.{Str, str}
use spdk_csi.Rpc.Message.{
  Address, BDev, RawLvStore, Payload, null, HttpRequest, HttpReply, no_response, response, decoded,
  Net,
}
use spdk_csi.Rpc.Client.{Client, Conn}
use spdk_csi.Rpc.Log.{Log}
use spdk_csi.Target.Nvmf.{NvmfNode}
use spdk_csi.Controller.Message.{NodeConfig, Token, Controller}
use spdk_csi.Controller.Server.{SecretsReader}

-- What the target does with the next request: it answers, or it refuses with a text.
data Step : Type 0 where
  answer : Payload → Step
  refuse : Str → Step

abbrev Script : Type 0
Script = List Step

abbrev reply_of : ℕ → Step → HttpReply
reply_of id (answer p) = response 200 (decoded id (pos 0) [] p)
reply_of id (refuse m) = response 200 (decoded id (negsuc 18) m null)

abbrev play : HttpRequest → Script → HttpReply × Script
play r [] = (no_response (str "connection refused"), [])
play r (x ∷ l) = (reply_of r.id x, l)

abbrev script : Net Script
script = record { send = play }

abbrev client : Client
client = record { rpc_url = str "http://10.0.0.1:9009"; rpc_user = str "spdk"; rpc_pass = str "pw" }

abbrev node : NvmfNode
node = record { target_type = str "TCP"; target_addr = str "10.0.0.1"; target_port = str "4420" }

abbrev start : Script → Conn (Script × Log)
start l = record { rpc_id = 0; trans_created = 0; world = (l, []) }

abbrev lvol : BDev
lvol = record {
  name = str "v1";
  uuid = str "u1";
  block_size = pos 512;
  num_blocks = pos 4096;
  lvol_store_uuid = some (str "s1");
}

abbrev store : RawLvStore
store = record {
  free_clusters = pos 100;
  cluster_size = pos 4194304;
  total_clusters = pos 100;
  name = str "lvs";
  uuid = str "s1";
}

abbrev own : Address
own = record {
  trtype = str "TCP";
  adrfam = str "IPv4";
  traddr = str "10.0.0.1";
  trsvcid = str "4420";
}

abbrev config : NodeConfig
config = record {
  name = str "n1";
  url = str "http://10.0.0.1:9009";
  target_type = str "nvme-tcp";
  target_addr = str "10.0.0.1";
}

abbrev cs : Controller
cs = record { spdk_node_configs = (str "n1", config) ∷ []; access_modes = 1 ∷ [] }

abbrev token : Token
token = record { name = str "n1"; user_name = str "spdk"; password = str "pw" }

abbrev read : SecretsReader
read s = inr (token ∷ [])
