-- ===== src/Tests.antt =====
-- The theorems and the definitions at concrete inputs.
mod Manager
mod Loading
mod Scripts
mod Accounts
mod NoCloud
mod NetworkConfig
mod OpenNebula
mod OpenStack
mod Debiface
mod Retry
mod Routes
mod Dhcp
mod CommonPlugins
mod Hostname
mod Requests
mod Network
mod UserData
mod CloudConfig
mod CloudConfigPlugins
mod Sections
