-- ===== src/Lib.antt =====
-- Cluster API provider for Incus: a model of the two controllers, of what they rely on and of the
-- tools beside them, with the theorems that make them correct.
--
-- The parts and the files that model them, with paths from the root of the repository:
--
-- - Api: api/v1alpha2, the objects LXCCluster and LXCMachine with their accessors, what the
--   controllers read of Cluster API's Cluster and Machine, and ClusterFirstPodNetworkCIDR.
--   Api/Devices is Devices.ToMap. Api/Conditions is the interface of Cluster API's conditions
--   library, with its documented behaviour as laws and with an instance that has them.
-- - Errors, Action: Go's errors with TerminalError (internal/utils/errors.go), functions that may
--   fail, and functions that talk to a server: a world goes in, and a result and a world come out,
--   so that what was done before an error stays done. Action/Ensures has the rules by which the
--   proofs follow the code, Action/Keeps those for what an action keeps true of the world, and
--   Action/Steps those that take a run apart.
-- - Images: internal/lxc/images.go, images_parse.go and images_sources.go. Images/Check is
--   (*Image).Check, over the image servers as a parameter.
-- - Launch: internal/lxc/launch_options.go and launch_options_files.go; Launch/Complete is
--   launch_options_complete.go.
-- - Incus: the methods and the types of the Incus client library that the program uses, as a record
--   that is a parameter; Incus/Addresses is ParseHostAddresses.
-- - Client: internal/lxc/client.go, client_discovery.go, client_operations.go and
--   client_run_command.go; Client/Filters is client_instances_list.go; Client/Start, Client/Stop
--   and Client/Launching are client_instances.go with client_instances_util.go.
-- - Instances: internal/instances, internal/cloudinit and internal/static/profiles.go.
-- - Balancer: internal/loadbalancer, the five managers as one data type; Balancer/Actions has
--   Create, Delete and Reconfigure, and Balancer/Inspect has Inspect.
-- - Machine: internal/controller/lxcmachine: Machine/Launching is launchInstance and
--   launchKindInstance, Machine/Normal is reconcileNormal, Machine/Delete is reconcileDelete and
--   Machine/Reconcile is Reconcile with the mapping of watch events.
-- - ClusterInfra: internal/controller/lxccluster.
-- - Config: internal/lxc/configuration.go and configuration_default.go; Config/Connect is New of
--   internal/lxc/client.go.
-- - OciImage: internal/utils/oci_image.go.
-- - Docker: cmd/exp/kini/docker, the docker command of kini: env.go; Docker/Run with Docker/Run/Options
--   and Docker/Run/Launching is docker_run.go; Docker/Inspect is docker_inspect.go, docker_ps.go and
--   docker_rm.go; Docker/Exec is docker_exec.go, docker_cp.go and docker_logs.go; Docker/Image is
--   the files docker_image_*.go; Docker/Info is docker_info.go and docker_network_ls.go;
--   Docker/Connect is the client of root.go.
-- - Kini: cmd/exp/kini/kini/config, the commands setup remotes and setup generate-secret, and
--   internal/exp/kini; Kini/Commands is main.go, the hooks of the commands kini and kind, and setup
--   activate-environment.
-- - Simplestreams: internal/exp/simplestreams/index, the index with what an import changes of it;
--   Simplestreams/Archives is what an import reads of an image, and Simplestreams/Import the
--   imports with their files. Simplestreams/Show is the table of cmd/exp/simplestreams/cmd/cmd_show.go
--   and Simplestreams/Commands the commands of that directory.
-- - ImageBuilder: internal/exp/image-builder/action; ImageBuilder/Publish and ImageBuilder/Export are
--   PublishImage and ExportImage, and ImageBuilder/Stages is internal/exp/image-builder/stage.
--   ImageBuilder/Commands is the flags of cmd/exp/image-builder/cmd with base_images.go, and
--   ImageBuilder/Builds the stages of its commands kubeadm and haproxy with their runs.
-- - Prelude, Text, Maps and Sorting: Booleans, lists, the functions of Go's strings package, maps
--   and slices.Sort. Tests has runs on concrete inputs.
--
-- How they interact: Reconcile of a controller reads its objects, connects a Client and calls
-- reconcileNormal or reconcileDelete, which call launchInstance, the load balancer manager that
-- ManagerForCluster chooses, and the Client. The object that the code mutates comes back beside the
-- result, after an error too, and is patched at the end of Reconcile.
--
-- The tools stand beside the controllers: kini setup generate-secret writes the secret from which the
-- controllers read the Configuration of their Client, docker run of kini launches instances with the
-- same launch options, and image-builder and simplestreams make the images that are launched.
--
-- Choices of the model: a map is an association list, whose order stands for the order of an
-- iteration. A panic of an index, of a type assertion or of a nil pointer is an error of its own
-- text. The deadline of a context is an error that a
-- call of the server answers; in waitForInstanceAddress it is the number of polls that are left, so
-- the recursion is on that number and there is no other fuel. Logging is left out. `quote` stands
-- for the verb %q on texts without characters to escape.
--
-- A loop over what a reader gives is a function of the list of what it gives; where the loop of the
-- code does not stop, the function has the value `none`. The wait for an instance's agent counts the
-- rounds that there is time for.
--
-- Not modelled: the progress handlers, which only log; the text of the templates and of
-- the embedded files, which are parameters; SetupWithManager and cmd/main.go; generated code; the
-- registration of commands and flags. The content of archives, hashes, JSON and YAML are parameters.
pub mod Prelude
pub mod Text
pub mod Maps
pub mod Errors
pub mod Action
pub mod Api
pub mod Images
pub mod Launch
pub mod Sorting
pub mod Incus
pub mod Client
pub mod Instances
pub mod Balancer
pub mod Machine
pub mod ClusterInfra
pub mod Tests
pub mod OciImage
pub mod Docker
pub mod Config
pub mod Simplestreams
pub mod ImageBuilder
pub mod Kini
