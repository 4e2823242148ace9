-- ===== src/Lib.antt =====
-- cloudbase-init prepares a cloud instance at its first boots. A service, or a scheduled start, runs
-- `InitManager.configure_host`: it loads the plugins of three stages, runs those of the first two,
-- looks for a metadata service, runs the plugins of the main stage against it, and ends in a reboot,
-- in a report or in the stop of the service. The plugins keep their status with osutils, per
-- instance, so that a plugin that is done is not run again.
--
-- The files, each with the code it is about (paths from the repository's root):
--   Base        names of the libraries, Boolean tests, lists, integers, Python exceptions as values
--   Action      methods that act on a state and may raise; Action/Rules has their assertions
--   Yaml        values of a JSON or YAML document with the dictionary and list operations
--   Plugins     cloudbaseinit/plugins/common/base.py, cloudbaseinit/plugins/factory.py and load_class
--               of cloudbaseinit/utils/classloader.py
--   Metadata    cloudbaseinit/metadata/factory.py and the service interface of
--               cloudbaseinit/metadata/services/base.py; Metadata/Requests its cache and retries,
--               Metadata/InstanceData the data of an instance
--   Manager     cloudbaseinit/init.py: the plugins of a stage; Manager/Configure has the whole run,
--               Manager/Protocol the phases in which its calls are allowed
--   Utils       cloudbaseinit/utils/retry_decorator.py, dhcp.py and hostname.py; Utils/Network the
--               addresses of IPv4 and the routes of cloudbaseinit/utils/network.py
--   NetworkModel  cloudbaseinit/models/network.py
--   NetworkConfig  cloudbaseinit/plugins/common/networkconfig.py: V1 and V2 for the two formats of the
--               details, Execute for the choice between them, V2/Plan for the calls that the details
--               ask for
--   NoCloud     the parsers and the service of cloudbaseinit/metadata/services/nocloudservice.py, and
--               ip_netmask_to_cidr of cloudbaseinit/utils/network.py
--   Debiface    cloudbaseinit/utils/debiface.py, with a matcher for its regular expressions
--   OpenStack   cloudbaseinit/metadata/services/baseopenstackservice.py: the metadata, the certificates
--               and the network data
--   OpenNebula  cloudbaseinit/metadata/services/opennebulaservice.py: the network details over the
--               variables of the context file
--   Scripts     cloudbaseinit/plugins/common/execcmd.py, userdatautils.py, fileexecutils.py and
--               localscripts.py
--   Accounts    cloudbaseinit/plugins/common/createuser.py, setuserpassword.py and
--               cloudbaseinit/plugins/windows/createuser.py
--   CommonPlugins  cloudbaseinit/plugins/common/sethostname.py, sshpublickeys.py, trim.py, mtu.py and
--               ntpclient.py
--   CloudConfig  cloudbaseinit/plugins/common/userdataplugins/cloudconfig.py
--   CloudConfigPlugins  the sections groups, users, set_hostname, set_timezone, ntp, write_files and
--               runcmd, of cloudbaseinit/plugins/common/userdataplugins/cloudconfigplugins
--   UserData    cloudbaseinit/plugins/common/userdata.py
--   Tests       the definitions and the theorems at concrete inputs
--
-- A function or method has the definition of its name, with helpers where it branches on the result
-- of a call; a method that changes something is a function from a state to a result and a state, so
-- that what was done before an exception stays done. The manager's state is `Host`: the world that
-- plugins and services act on, the values that osutils keeps, and the calls made so far. The account
-- plugins' state is `Machine`: the dictionary that the plugins share, and the calls made; that of the
-- user data plugin is `Progress`: the registered handlers, and the calls made; that of the network
-- plugin is the list of the calls made. Calls of the operating system, of a service, of netaddr and
-- of the clock are parameters.
--
-- The retry loop runs on fuel: with a limit of `count` retries, `count + 1` rounds are enough. So
-- does the loop over DHCP options, where fuel for every byte of the message is enough, and the loops
-- over the chunks of a certificate and over the interfaces of OpenNebula, where one test more than
-- the dictionary has entries is enough; the DHCP client reads at most as many messages as its fuel.
-- Every other loop is a recursion on its list. Times are natural numbers of one small unit; exit
-- codes are integers; floating-point numbers and dates of a document are left out.
--
-- Not modelled: log lines; a plugin that ends the run by `SystemExit`; the Windows API behind
-- osutils and cloudbaseinit/utils/windows; the declarations of options; the metadata services but
-- NoCloud, OpenStack and OpenNebula; the user data plugins of content types and the plugins of
-- Windows; the temporary files and processes behind a script.
pub mod Base
pub mod Plugins
pub mod Metadata
pub mod Manager
pub mod Action
pub mod Utils
pub mod Yaml
pub mod NetworkModel
pub mod NetworkConfig
pub mod NoCloud
pub mod Debiface
pub mod OpenNebula
pub mod OpenStack
pub mod Scripts
pub mod Accounts
pub mod CommonPlugins
pub mod CloudConfig
pub mod CloudConfigPlugins
pub mod UserData
pub mod Tests
